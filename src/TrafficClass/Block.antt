-- ===== src/TrafficClass/Block.antt =====
-- `BlockTowardsRoot`, and the members of the classes.
use flow_bundler.TrafficClass.{block_leaf, block_priority, block_round_robin, block_rate_limit}
use flow_bundler.Common.{
  ℕ, ◌+◌, ◌-◌, ◌<◌, ◌≤◌, ◌≡◌, ◌⊎◌, refl, ◌∙◌, sym, subst, length, ◌==◌, ltb, leb, if◌then◌else◌,
  Bool, true, false, inl, inr, arith, Bool-cases,
}
use flow_bundler.TrafficClass.{
  Head, Tc, leaf, priority, round_robin, rate_limit, Children, no_children, child, head_of, blocked,
  flags, is_childless, first_free, scan_from, no_free_child, block_set, block_loop, block,
}
use flow_bundler.TrafficClass.Order.{
  first_free-busied, length-Moved, All-Moved, no_free-flags, no_free-AnyIs,
}
use flow_bundler.TrafficClass.Climb.{Stepped, Climbing}
use flow_bundler.TrafficClass.Consistent.{
  AllFree, AllBusy, Consistent, ConsistentAll, length-is_childless, flags-push_back,
  ConsistentAll-push_back, All-append, scan_from_lem, first_free-le,
}

-- A class whose children may have become blocked: if it is blocked, it has no child to run.
abbrev pub Busied : Tc → Type 0
Busied (leaf h w) = h.blocked ≡ false
Busied (priority h first cs) =
    (first ≤ first_free (flags cs))
    × (h.blocked ≡ true → first_free (flags cs) ≡ length (flags cs))
    × ConsistentAll cs
Busied (round_robin h next run wait) =
    AllBusy (flags wait)
    × ((next ≡ 0) ⊎ (next < length (flags run)))
    × (h.blocked ≡ true → length (flags run) ≡ 0)
    × ConsistentAll run
    × ConsistentAll wait
Busied (rate_limit h l cs) = (no_free_child cs ≡ true) × (length (flags cs) ≤ 1) × ConsistentAll cs

-- What the loop of a round robin class leaves.
record Parted (cs : Children) (i : ℕ) (out : Children × Children × ℕ) : Type 0 where
  kept_free : AllFree (flags out.0)
  moved_busy : AllBusy (flags out.1)
  kept_all : ConsistentAll out.0
  moved_all : ConsistentAll out.1
  shorter : length (flags out.0) ≤ length (flags cs)
  turn : (out.2 ≡ 0) ⊎ (out.2 < i + length (flags out.0))

block_loop-Parted :
    (cs : Children) (i n next : ℕ)
    → ConsistentAll cs
    → n ≡ i + length (flags cs)
    → (next ≡ 0) ⊎ (next < n)
    → Parted cs i (block_loop cs i n next)
unfolding block_loop flags Consistent
block_loop-Parted no_children i n next vs size turn = record {
  kept_free = tt;
  moved_busy = tt;
  kept_all = tt;
  moved_all = tt;
  shorter = omega arith;
  turn = ground (arith, size, turn);
}
block_loop-Parted (child p c cs) i n next (v, vs) size turn = elim (Bool-cases (blocked c)) [
  | inl busy ↦
      let n' = n - 1 in
      let moved = if ltb i next then next - 1 else next in
      let next' = if leb n' moved then 0 else moved in
      let turn' : (next' ≡ 0) ⊎ (next' < n') = ground (arith, turn) in
      let s = block_loop-Parted cs i n' next' vs (omega (arith, size)) turn' in
      rw (busy, block_loop, flags, Consistent)
        (record {
          kept_free = s.kept_free;
          moved_busy = (busy, s.moved_busy);
          kept_all = s.kept_all;
          moved_all = (v, s.moved_all);
          shorter = omega (arith, s.shorter);
          turn = s.turn;
        })
  | inr free ↦
      let s = block_loop-Parted cs (i + 1) n next vs (omega (arith, size)) turn in
      rw (free, block_loop, flags, Consistent)
        (record {
          kept_free = (free, s.kept_free);
          moved_busy = s.moved_busy;
          kept_all = (v, s.kept_all);
          moved_all = s.moved_all;
          shorter = omega (arith, s.shorter);
          turn = ground (arith, s.turn);
        })
]

flag_of :
    (h : Head) (b : Bool)
    → (h.blocked ≡ true → b ≡ true)
    → let out = block_set h b in
      ((out.1 ≡ true) × (h.blocked ≡ false) × (out.0.blocked ≡ true))
      ⊎ ((out.1 ≡ false) × (out.0.blocked ≡ h.blocked))
unfolding block_set
flag_of h b still = elim (Bool-cases h.blocked) [
  | inr was ↦ elim (Bool-cases b) [
    | inl now ↦ inl (rw (now, was) refl, was, now)
    | inr gone ↦ inr (rw gone refl, gone ∙ sym was)
  ]
  | inl was ↦ inr (rw (still was, was) refl, still was ∙ sym was)
]

pub block-Stepped : (t : Tc) → Busied t → Stepped true t (block t)
unfolding block block_leaf block_priority block_round_robin block_rate_limit block_set Consistent
    head_of
block-Stepped (leaf h w) v = record { kept = tt; flag = inr (refl, sym v) }
block-Stepped (priority h first cs) (behind, none_free, vs) =
    let same = scan_from_lem first (flags cs) behind in
    record {
      kept = (record { first_is = same; priority_flag = refl }, vs);
      flag =
          flag_of h (scan_from first (flags cs) == length (flags cs))
            (λ was. ground (arith, same, none_free was));
    }
block-Stepped (round_robin h next run wait) (busy, turn, none_run, vs, ws) =
    let out = block_loop run 0 (length (flags run)) next in
    let s = block_loop-Parted run 0 (length (flags run)) next vs (omega arith) turn in
    record {
      kept = (
        record {
          run_free = s.kept_free;
          wait_busy =
              subst AllBusy (sym (flags-push_back wait out.1))
                (All-append (λ b. b ≡ true) (flags wait) (flags out.1) busy s.moved_busy);
          turn_in = ground (arith, s.turn);
          robin_flag = length-is_childless out.0;
        },
        s.kept_all,
        ConsistentAll-push_back wait out.1 ws s.moved_all,
      );
      flag =
          flag_of h (is_childless out.0)
            (λ was. length-is_childless out.0 ∙ ground (arith, s.shorter, none_run was));
    }
block-Stepped (rate_limit h l cs) (none_free, one, vs) = record {
  kept = (
    record {
      child_free = λ e. e;
      awake = λ e. let no : true ≡ false = sym none_free ∙ e in cc;
      single = one;
    },
    vs,
  );
  flag = flag_of h (no_free_child cs) (λ was. none_free);
}

-- On the way towards the root.
pub block-Climbing : Climbing true block
unfolding head_of
block-Climbing = record {
  at_priority = λ h first cs out own w.
      let busied = first_free-busied (flags out.0) (flags cs) w.moved in
      let same = length-Moved true (flags out.0) (flags cs) w.moved in
      let s = block-Stepped (priority h first out.0) (
        omega (arith, own.first_is, busied),
        (λ was. ground (
          arith,
          own.first_is,
          own.priority_flag,
          was,
          busied,
          same,
          first_free-le (flags out.0),
        )),
        w.all,
      ) in
      record { kept = s.kept; flag = s.flag };
  at_robin = λ h next run wait r q own wr wq.
      let same = length-Moved true (flags r.0) (flags run) wr.moved in
      let busy = All-Moved true (flags q.0) (flags wait) wq.moved own.wait_busy in
      let turn : (next ≡ 0) ⊎ (next < length (flags r.0)) = ground (arith, same, own.turn_in) in
      let none_run : h.blocked ≡ true → length (flags r.0) ≡ 0 =
        λ e. ground (arith, same, own.robin_flag, e) in
      let s = block-Stepped (round_robin h next r.0 q.0) (busy, turn, none_run, wr.all, wq.all) in
      record { kept = s.kept; flag = s.flag };
  at_limit = λ h l cs out own w told.
      let same = length-Moved true (flags out.0) (flags cs) w.moved in
      let one : length (flags out.0) ≤ 1 = omega (arith, same, own.single) in
      let none_free = no_free-flags out.0 ∙ no_free-AnyIs true (flags out.0) one (w.news told) in
      let s = block-Stepped (rate_limit h l out.0) (none_free, one, w.all) in
      record { kept = s.kept; flag = s.flag };
}
