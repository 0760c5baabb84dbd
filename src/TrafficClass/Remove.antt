-- ===== src/TrafficClass/Remove.antt =====
-- `RemoveChild`, and the members of the classes.
use flow_bundler.TrafficClass.Step.{remove_priority, remove_round_robin, remove_rate_limit}
use flow_bundler.Common.{
  ℕ, ◌<◌, ◌≤◌, ◌≡◌, ◌⊎◌, refl, ◌∙◌, sym, subst, length, true, inl, inr, arith, Option-cases,
}
use flow_bundler.TrafficClass.{
  Head, Tc, leaf, priority, round_robin, rate_limit, Children, no_children, head_of, blocked, flags,
  first_free, no_free_child, block,
}
use flow_bundler.TrafficClass.Step.{erase, wrapped, position, shifted, remove_child, detach}
use flow_bundler.TrafficClass.Erase.{
  All-erase, ConsistentAll-erase, length-erase_le, first_free-erase, none_free-erase,
}
use flow_bundler.TrafficClass.Climb.{Stepped, towards_root-Stepped}
use flow_bundler.TrafficClass.Consistent.{Consistent}
use flow_bundler.TrafficClass.Block.{block-Stepped, block-Climbing}

-- A child of a round robin class that could run.
remove_run-Stepped :
    (h : Head) (next i : ℕ) (run wait : Children)
    → Consistent (round_robin h next run wait)
    → let run' = erase i run in
      Stepped true
        (round_robin h next run wait)
        (block (round_robin h (wrapped (shifted i next) run') run' wait))
unfolding Consistent head_of wrapped shifted
remove_run-Stepped h next i run wait (own, vs, ws) =
    let run' = erase i run in
    let next' = wrapped (shifted i next) run' in
    let turn : (next' ≡ 0) ⊎ (next' < length (flags run')) = ground arith in
    let none_run : h.blocked ≡ true → length (flags run') ≡ 0 =
      λ e. ground (arith, length-erase_le run i, own.robin_flag, e) in
    let s =
      block-Stepped (round_robin h next' run' wait)
        (own.wait_busy, turn, none_run, ConsistentAll-erase run i vs, ws) in
    record { kept = s.kept; flag = s.flag }

remove_wait-Consistent :
    (h : Head) (next i : ℕ) (run wait : Children)
    → Consistent (round_robin h next run wait)
    → Consistent (round_robin h next run (erase i wait))
unfolding Consistent
remove_wait-Consistent h next i run wait (own, vs, ws) = (
  record {
    run_free = own.run_free;
    wait_busy = All-erase (λ b. b ≡ true) wait i own.wait_busy;
    turn_in = own.turn_in;
    robin_flag = own.robin_flag;
  },
  vs,
  ConsistentAll-erase wait i ws,
)

remove_child-Stepped : (gone : ℕ) (t : Tc) → Consistent t → Stepped true t (remove_child gone t)
unfolding remove_child remove_priority remove_round_robin remove_rate_limit head_of flags
    no_free_child Consistent
remove_child-Stepped gone (leaf h w) v = record { kept = v; flag = inr (refl, refl) }
remove_child-Stepped gone (priority h first cs) (own, vs) = elim (Option-cases (position gone cs)) [
  | inl not_there ↦
      rw (not_there, remove_child, remove_priority)
        (record { kept = (own, vs); flag = inr (refl, refl) })
  | inr (i, there) ↦
      let cs' = erase i cs in
      let all_busy : h.blocked ≡ true → first_free (flags cs) ≡ length (flags cs) =
        λ e. ground (arith, own.first_is, own.priority_flag, e) in
      let behind : shifted i first ≤ first_free (flags cs') =
        subst (λ n. shifted i n ≤ first_free (flags cs')) (sym own.first_is)
          (first_free-erase cs i) in
      let s =
        block-Stepped (priority h (shifted i first) cs')
          (behind, (λ e. none_free-erase cs i (all_busy e)), ConsistentAll-erase cs i vs) in
      rw (there, remove_child, remove_priority) (record { kept = s.kept; flag = s.flag })
]
remove_child-Stepped gone (round_robin h next run wait) v =
    elim (Option-cases (position gone wait)) [
      | inr (i, there) ↦
          rw (there, remove_child, remove_round_robin)
            (record { kept = remove_wait-Consistent h next i run wait v; flag = inr (refl, refl) })
      | inl not_waiting ↦ elim (Option-cases (position gone run)) [
        | inl not_there ↦
            rw (not_waiting, not_there, remove_child, remove_round_robin)
              (record { kept = v; flag = inr (refl, refl) })
        | inr (i, there) ↦
            rw (not_waiting, there, remove_child, remove_round_robin)
              (remove_run-Stepped h next i run wait v)
      ]
    ]
remove_child-Stepped gone (rate_limit h l cs) (own, vs) = elim (Option-cases (position gone cs)) [
  | inl not_there ↦
      rw (not_there, remove_child, remove_rate_limit)
        (record { kept = (own, vs); flag = inr (refl, refl) })
  | inr (i, there) ↦
      let s = block-Stepped (rate_limit h l no_children) (refl, omega arith, tt) in
      rw (there, remove_child, remove_rate_limit) (record { kept = s.kept; flag = s.flag })
]

-- If a consistent tree loses a child of the class with the number `id`, it is consistent after it, and if
-- its root was blocked, it is blocked after it.
pub detach_lem :
    (id gone : ℕ) (t : Tc)
    → Consistent t
    → Consistent (detach id gone t) × (blocked t ≡ true → blocked (detach id gone t) ≡ true)
unfolding detach
detach_lem id gone t v =
    let s =
      towards_root-Stepped true id (remove_child gone) block block-Climbing
        (remove_child-Stepped gone) t v in
    (s.kept, λ busy. elim (s.flag) [ inl (told, was, now) ↦ now | inr (still, now) ↦ now ∙ busy ])
