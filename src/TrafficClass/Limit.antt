-- ===== src/TrafficClass/Limit.antt =====
-- bess/core/traffic_class.{h,cc}: the tokens of a rate limit, and how much it lets through.
use native.Mathlib.Nat.{div-add-mod, mod-lt, div-le_self, mul-add, mul-le-mul}
use flow_bundler.Common.{if◌then◌else◌}
use flow_bundler.Common.{
  ℕ, ◌+◌, ◌-◌, ◌*◌, ◌/◌, ◌^◌, ◌<◌, ◌≤◌, ◌≡◌, ◌≢◌, refl, ap, ◌∙◌, sym, subst, List, [], ◌∷◌, u64,
  sub64, ltb, ◌==◌, false, inl, inr, Option, none, some, arith, Bool-cases,
}
use flow_bundler.TrafficClass.{
  Usage, used, Resource, Head, Limiter, Tc, leaf, priority, round_robin, rate_limit, Children,
  unblock_rate_limit, unblock_set,
}
use flow_bundler.Scheduler.{roused}
use flow_bundler.TrafficClass.Step.{to_work_units, new_tokens, work, charge, account_limit}

-- `to_work_units_per_cycle`, of a machine with this many cycles in a second.
unfoldable pub to_work_units_per_cycle : ℕ → ℕ → ℕ
to_work_units_per_cycle tsc_hz x = u64 (x * 2 ^ 32 / tsc_hz)

unfoldable pub set_limit : ℕ → ℕ → Limiter → Limiter
unfolding to_work_units_per_cycle
set_limit tsc_hz limit l = record l {
  limit_arg = limit;
  limit = to_work_units_per_cycle tsc_hz limit;
}

unfoldable pub set_max_burst : ℕ → Limiter → Limiter
unfolding to_work_units
set_max_burst burst l = record l { max_burst_arg = burst; max_burst = to_work_units burst }

-- The constructor.
unfoldable pub new_limiter : ℕ → Resource → ℕ → ℕ → Limiter
unfolding set_limit set_max_burst
new_limiter tsc_hz resource limit max_burst =
    let l : Limiter = record {
      resource = resource;
      limit = 0;
      limit_arg = 0;
      max_burst = 0;
      max_burst_arg = 0;
      tokens = 0;
      last_tsc = 0;
    } in
    set_max_burst max_burst (set_limit tsc_hz limit l)

-- The limiter with which the class accounts for its child the next time: `last_tsc_` is the wakeup time
-- if it was throttled.
unfoldable pub resumed : Limiter → Option ℕ → Limiter
resumed l none = l
resumed l (some time) = record l { last_tsc = time }

unfoldable pub throttles : Option ℕ → ℕ
throttles none = 0
throttles (some time) = 1

-- No number of the accounting wraps around.
pub record Fits (l : Limiter) (usage : Usage) (tsc : ℕ) : Type 0 where
  pub in_order : l.last_tsc ≤ tsc
  pub earned_fits : l.tokens + l.limit * (tsc - l.last_tsc) < 2 ^ 64
  pub used_fits : tsc + used usage l.resource * 2 ^ 32 < 2 ^ 64

new_tokens_lem :
    (l : Limiter) (usage : Usage) (tsc : ℕ)
    → Fits l usage tsc
    → new_tokens l tsc ≡ l.tokens + l.limit * (tsc - l.last_tsc)
unfolding new_tokens
new_tokens_lem l usage tsc fits =
    let elapsed : sub64 tsc l.last_tsc ≡ tsc - l.last_tsc =
      omega (arith, fits.in_order, fits.used_fits) in
    ap (λ n. u64 (l.tokens + u64 (l.limit * n))) elapsed ∙ omega (arith, fits.earned_fits)

work_lem :
    (l : Limiter) (usage : Usage) (tsc : ℕ)
    → Fits l usage tsc
    → work l usage ≡ used usage l.resource * 2 ^ 32
unfolding work to_work_units
work_lem l usage tsc fits = omega (arith, fits.used_fits)

-- A wait that pays a debt but for what one cycle earns.
wait_lem : (d k : ℕ) → 0 < k → (k * (d / k) ≤ d) × (d < k * (d / k) + k) × (d / k ≤ d)
wait_lem d k pos =
    (omega (arith, div-add-mod d k), omega (arith, div-add-mod d k, mod-lt d pos), div-le_self d k)

earned : (k last tsc : ℕ) → last ≤ tsc → k * last + k * (tsc - last) ≡ k * tsc
earned k last tsc order = sym (mul-add k last (tsc - last)) ∙ ap (λ n. k * n) (omega (arith, order))

-- One accounting: what the child has consumed is paid for by the tokens, what the limit earns until the
-- class goes on, and, if it is throttled, what it earns in one cycle more.
account_limit-paid :
    (h : Head) (l : Limiter) (usage : Usage) (tsc : ℕ)
    → 0 < l.limit
    → Fits l usage tsc
    → let out = account_limit h l usage tsc in
      let l' = resumed out.1 out.2 in
      (l'.limit ≡ l.limit)
      × (l'.resource ≡ l.resource)
      × (work l usage + l'.tokens + l.limit * l.last_tsc
          ≤ l.tokens + l.limit * l'.last_tsc + throttles out.2 * l.limit)
unfolding account_limit charge resumed throttles
account_limit-paid h l usage tsc pos fits =
    let tokens = new_tokens l tsc in
    let all_tokens = new_tokens_lem l usage tsc fits in
    let since = earned l.limit l.last_tsc tsc fits.in_order in
    elim (Bool-cases (ltb tokens (work l usage))) [
      | inr enough ↦
          simp (enough, account_limit) (refl, refl, ground (arith, enough, all_tokens, since))
      | inl over ↦
          let some_limit : (l.limit == 0) ≡ false = ground (arith, pos) in
          let debt = work l usage - tokens in
          let wait = debt / l.limit in
          let (whole, part, short) = wait_lem debt l.limit pos in
          let time : u64 (tsc + wait) ≡ tsc + wait =
            omega (arith, short, work_lem l usage tsc fits, fits.used_fits) in
          let slept = ap (λ n. l.limit * n) time ∙ mul-add l.limit tsc wait in
          simp (over, some_limit, account_limit)
            (refl, refl, ground (arith, over, all_tokens, since, part, slept))
    ]

-- The time from which a class earns tokens: the last accounting, or the wakeup time while it sleeps.
unfoldable pub clock : Head → Limiter → ℕ
clock h l = if h.wakeup_time == 0 then l.last_tsc else h.wakeup_time

account_limit-clock :
    (h : Head) (l : Limiter) (usage : Usage) (tsc : ℕ)
    → h.wakeup_time ≡ 0
    → 0 < l.limit
    → Fits l usage tsc
    → let out = account_limit h l usage tsc in clock out.0 out.1 ≡ (resumed out.1 out.2).last_tsc
unfolding account_limit charge resumed clock
account_limit-clock h l usage tsc awake pos fits =
    let tokens = new_tokens l tsc in
    elim (Bool-cases (ltb tokens (work l usage))) [
      | inr enough ↦ simp (enough, account_limit) (ground (arith, awake))
      | inl over ↦
          let some_limit : (l.limit == 0) ≡ false = ground (arith, pos) in
          let debt = work l usage - tokens in
          let wait = debt / l.limit in
          let (whole, part, short) = wait_lem debt l.limit pos in
          let time : u64 (tsc + wait) ≡ tsc + wait =
            omega (arith, short, work_lem l usage tsc fits, fits.used_fits) in
          simp (over, some_limit, account_limit) (ground (arith, time))
    ]

tokens-resumed :
    (l : Limiter) (w : Option ℕ)
    → ((resumed l w).tokens ≡ l.tokens) × ((resumed l w).limit ≡ l.limit)
unfolding resumed
tokens-resumed l none = (refl, refl)
tokens-resumed l (some time) = (refl, refl)

-- What happens to a rate limit, all that writes its tokens, its clock or its wakeup time: its child has run;
-- `UnblockTowardsRoot` comes by with a time, which is the wakeup time of a class below it that wakes up, or
-- the clock when a child is added; and its own wakeup, which `WakeTCs` starts. The latter two come with the
-- child that the class has then.
pub data Event : Type 0 where
  ran : Usage → ℕ → Event
  told : Children → ℕ → Event
  woken : Children → Event

-- The members, the work that was let through, how often the class was throttled, and by how many cycles its
-- clock was set back.
pub record Served : Type 0 where
  pub head : Head
  pub limiter : Limiter
  pub total : ℕ
  pub times : ℕ
  pub back : ℕ

abbrev pub members : Head × Limiter → Tc → Head × Limiter
members d (leaf h w) = d
members d (priority h first cs) = d
members d (round_robin h next run wait) = d
members d (rate_limit h l cs) = (h, l)

unfoldable pub served : Served → Event → Served
unfolding unblock_rate_limit
served s (ran usage tsc) =
    let out = account_limit (s.head) (s.limiter) usage tsc in
    record {
      head = out.0;
      limiter = out.1;
      total = s.total + work (s.limiter) usage;
      times = s.times + throttles out.2;
      back = s.back;
    }
served s (told cs tsc) =
    let (h, l) = members (s.head, s.limiter) (unblock_rate_limit tsc (s.head) (s.limiter) cs).0 in
    record s { head = h; limiter = l; back = s.back + (clock (s.head) (s.limiter) - clock h l) }
served s (woken cs) =
    let (h, l) =
      members (s.head, s.limiter)
        (unblock_rate_limit s.head.wakeup_time (roused (s.head)) (s.limiter) cs).0 in
    record s { head = h; limiter = l }

abbrev pub serve_all : Served → List Event → Served
serve_all s [] = s
serve_all s (e ∷ es) = serve_all (served s e) es

-- A child runs only while the class does not sleep, and only a class that sleeps is woken.
abbrev pub Allowed : Served → Event → Type 0
Allowed s (ran usage tsc) = (s.head.wakeup_time ≡ 0) × Fits (s.limiter) usage tsc
Allowed s (told cs tsc) = Unit
Allowed s (woken cs) = s.head.wakeup_time ≢ 0

abbrev pub AllAllowed : Served → List Event → Type 0
AllAllowed s [] = Unit
AllAllowed s (e ∷ es) = Allowed s e × AllAllowed (served s e) es

abbrev pub nothing_served : Head → Limiter → Served
nothing_served h l = record { head = h; limiter = l; total = 0; times = 0; back = 0 }

-- What two moments owe to each other, for a limit `k`.
abbrev Paid : ℕ → Served → Served → Type 0
Paid k s s' =
    s'.total + s'.limiter.tokens + k * clock (s.head) (s.limiter) + k * s.times + k * s.back
    ≤ s.total + s.limiter.tokens + k * clock (s'.head) (s'.limiter) + k * s'.times + k * s'.back

clock-awake : (h : Head) (l : Limiter) → h.wakeup_time ≡ 0 → clock h l ≡ l.last_tsc
unfolding clock
clock-awake h l e = ground (arith, e)

clock-asleep : (h : Head) (l : Limiter) → h.wakeup_time ≢ 0 → clock h l ≡ h.wakeup_time
unfolding clock
clock-asleep h l ne = ground (arith, ne)

set_back : (k c c' : ℕ) → k * c ≤ k * c' + k * (c - c')
set_back k c c' =
    let more : k * c ≤ k * (c' + (c - c')) = mul-le-mul (omega arith) (omega arith) in
    omega (arith, more, mul-add k c' (c - c'))

served-Paid :
    (k : ℕ) (s : Served) (e : Event)
    → s.limiter.limit ≡ k
    → 0 < k
    → Allowed s e
    → ((served s e).limiter.limit ≡ k) × Paid k s (served s e)
unfolding served unblock_rate_limit unblock_set
served-Paid k s (ran usage tsc) is pos (awake, fits) =
    let l = s.limiter in
    let pos' : 0 < l.limit = subst (λ n. 0 < n) (sym is) pos in
    let out = account_limit (s.head) l usage tsc in
    let l' = resumed out.1 out.2 in
    let (same, kind, paid) = account_limit-paid (s.head) l usage tsc pos' fits in
    let paid' : work l usage + l'.tokens + k * l.last_tsc
        ≤ l.tokens + k * l'.last_tsc + throttles out.2 * k =
      subst
        (λ (n : ℕ).
          work l usage + l'.tokens + n * l.last_tsc
          ≤ l.tokens + n * l'.last_tsc + throttles out.2 * n)
        is paid in
    let (tokens, limit) = tokens-resumed out.1 out.2 in
    (
      sym limit ∙ same ∙ is,
      omega (
        arith,
        paid',
        tokens,
        ap (λ n. k * n) (account_limit-clock (s.head) l usage tsc awake pos' fits),
        ap (λ n. k * n) (clock-awake (s.head) l awake),
        mul-add k (s.times) (throttles out.2),
      ),
    )
served-Paid k s (told cs tsc) is pos ok =
    let s' = served s (told cs tsc) in
    let c = clock (s.head) (s.limiter) in
    let c' = clock (s'.head) (s'.limiter) in
    (is, omega (arith, set_back k c c', mul-add k (s.back) (c - c')))
served-Paid k s (woken cs) is pos asleep =
    let s' = served s (woken cs) in
    let same : clock (s.head) (s.limiter) ≡ clock (s'.head) (s'.limiter) =
      clock-asleep (s.head) (s.limiter) asleep ∙ sym (clock-awake (s'.head) (s'.limiter) refl) in
    (is, omega (arith, ap (λ n. k * n) same))

serve_all-Paid :
    (k : ℕ) (s : Served) (es : List Event)
    → s.limiter.limit ≡ k
    → 0 < k
    → AllAllowed s es
    → Paid k s (serve_all s es)
serve_all-Paid k s [] is pos ok = omega arith
serve_all-Paid k s (e ∷ es) is pos (first, rest) =
    let (same, paid) = served-Paid k s e is pos first in
    let later = serve_all-Paid k (served s e) es same pos rest in omega (arith, paid, later)

-- For any accountings of a rate limit, with its own wakeups and calls of `UnblockTowardsRoot` with any time
-- between them: the limit lets through no more work than its tokens at the start, what it earns until the
-- time from which it earns at the end, what it earns in one cycle for each time that it was throttled, and
-- what it earns in the cycles by which those calls have set its clock back; the tokens that are left count as
-- work. The limit is not 0, its child runs only while it does not sleep, it is woken only while it sleeps,
-- and no number of an accounting wraps around.
pub serve_all_lem :
    (h : Head) (l : Limiter) (es : List Event)
    → 0 < l.limit
    → AllAllowed (nothing_served h l) es
    → let s = serve_all (nothing_served h l) es in
      s.total + s.limiter.tokens + l.limit * clock h l
      ≤ l.tokens + l.limit * clock (s.head) (s.limiter) + l.limit * s.times + l.limit * s.back
serve_all_lem h l es pos ok =
    omega (arith, serve_all-Paid l.limit (nothing_served h l) es refl pos ok)
