-- ===== src/Sync/Mutex/Wakeups.antt =====
-- Who is woken by the mutex of kernel/src/util/async/mutex.rs, and who is not.
use zoom_os.Prelude.{
  ℕ, Bool, true, false, not, ◌&&◌, ◌≡◌, ◌≢◌, refl, sym, ap, ◌∙◌, ◌⊎◌, ⊎-map, inl, inr, List, [],
  ◌∷◌, arith, Bool-cases, ◌==◌, ==_iff, if◌then◌else◌, write, write-same, write-other, IsIn,
  IsIn-left, IsIn-right,
}
use zoom_os.Sync.Mutex.{
  Mode, try, spin, async, Pc, idle, loading, exchanging, holds, notifying, polling, registering,
  pending, Mutex, new, set_pc, register, notify, notify_one, on_fail, on_begin, advance_from,
  advance, begin_from, begin, release_from, release, Step, begins, advances, releases, take_step,
  IsReached, at_start, after_step,
}

-- A pending task is on the list or has been woken.
abbrev pub IsHeard : Mutex → Type 0
IsHeard m = (u : ℕ) → m.pcs u ≡ pending → IsIn u m.wakeup_list ⊎ (m.woken u ≡ true)

on_fail-awake : (mode : Mode) → on_fail mode ≢ pending
unfolding on_fail
on_fail-awake try e = cc
on_fail-awake spin e = cc
on_fail-awake async e = cc

on_begin-awake : (mode : Mode) → on_begin mode ≢ pending
unfolding on_begin
on_begin-awake try e = cc
on_begin-awake spin e = cc
on_begin-awake async e = cc

if-awake : (b : Bool) (x y : Pc) → x ≢ pending → y ≢ pending → (if b then x else y) ≢ pending
if-awake true x y p q = p
if-awake false x y p q = q

if-IsHeard : (b : Bool) (x y : Mutex) → IsHeard x → IsHeard y → IsHeard (if b then x else y)
if-IsHeard true x y p q = p
if-IsHeard false x y p q = q

-- Where the list and the flags hear of more tasks, and `t` goes to a place that is not pending.
awake :
    (t : ℕ) (pc : Pc) (m after : Mutex)
    → pc ≢ pending
    → ((u : ℕ)
        → u ≢ t
        → IsIn u m.wakeup_list ⊎ (m.woken u ≡ true)
        → IsIn u after.wakeup_list ⊎ (after.woken u ≡ true))
    → after.pcs ≡ write m.pcs t pc
    → IsHeard m
    → IsHeard after
awake t pc m after stays more moved h u e = elim (Bool-cases (u == t)) [
  | inl same ↦
      let u_is : u ≡ t = (==_iff u t).0 same in
      let now : after.pcs t ≡ pc = ap (λ f. f t) moved ∙ write-same m.pcs t pc in
      absurd (stays (sym now ∙ (ap after.pcs (sym u_is) ∙ e)))
  | inr other ↦
      let differ : u ≢ t = λ s. absurd (ground arith) in
      let now : after.pcs u ≡ m.pcs u = ap (λ f. f u) moved ∙ write-other m.pcs t u pc differ in
      more u differ (h u (sym now ∙ e))
]

notify-more :
    (queue : List ℕ) (m : Mutex) (u : ℕ)
    → IsIn u queue ⊎ (m.woken u ≡ true)
    → m.wakeup_list ≡ queue
    → IsIn u (notify queue m).wakeup_list ⊎ ((notify queue m).woken u ≡ true)
unfolding notify
notify-more [] m u (inl i) e = absurd i
notify-more [] m u (inr w) e = inr w
notify-more (t ∷ queue) m u (inl (inl same)) e = inr (rw same (write-same m.woken t true))
notify-more (t ∷ queue) m u (inl (inr i)) e = inl i
notify-more (t ∷ queue) m u (inr w) e = inr (stays_woken t u w)
  where
    stays_woken : (t u : ℕ) → m.woken u ≡ true → write m.woken t true u ≡ true
    stays_woken t u w = ground arith

notify-pcs : (queue : List ℕ) (m : Mutex) → (notify queue m).pcs ≡ m.pcs
unfolding notify
notify-pcs [] m = refl
notify-pcs (t ∷ queue) m = refl

advance_from-IsHeard :
    (spurious : Bool) (t : ℕ) (pc : Pc) (m : Mutex)
    → m.pcs t ≡ pc
    → IsHeard m
    → IsHeard (advance_from spurious t pc m)
unfolding advance_from register notify_one set_pc
advance_from-IsHeard spurious t idle m at_t h = h
advance_from-IsHeard spurious t holds m at_t h = h
advance_from-IsHeard spurious t (loading mode) m at_t h =
    let next = if m.locked then on_fail mode else exchanging mode in
    awake t next m (set_pc t next m)
      (if-awake m.locked (on_fail mode) (exchanging mode) (on_fail-awake mode) (λ e. cc))
      (λ u _ i. i) refl h
advance_from-IsHeard spurious t (exchanging mode) m at_t h =
    if-IsHeard (not m.locked && not spurious) (set_pc t holds (record m { locked = true }))
      (set_pc t (on_fail mode) m)
      (awake t holds m (set_pc t holds (record m { locked = true })) (λ e. cc) (λ u _ i. i) refl h)
      (awake t (on_fail mode) m (set_pc t (on_fail mode) m) (on_fail-awake mode) (λ u _ i. i) refl
        h)
advance_from-IsHeard spurious t polling m at_t h =
    let next = if m.locked then registering else loading async in
    awake t next m (set_pc t next m)
      (if-awake m.locked registering (loading async) (λ e. cc) (λ e. cc)) (λ u _ i. i) refl h
advance_from-IsHeard spurious t registering m at_t h = λ u e. elim (Bool-cases (u == t)) [
  | inl same ↦
      let u_is : u ≡ t = (==_iff u t).0 same in
      inl (rw u_is (IsIn-right t m.wakeup_list (t ∷ []) (inl refl)))
  | inr other ↦
      let differ : u ≢ t = λ s. absurd (ground arith) in
      let before = sym (write-other m.pcs t u pending differ) ∙ e in
      ⊎-map (IsIn-left u m.wakeup_list (t ∷ [])) (λ w. w) (h u before)
]
advance_from-IsHeard spurious t pending m at_t h =
    let after = set_pc t polling (record m { woken = write m.woken t false }) in
    if-IsHeard (m.woken t) after m
      (awake t polling m after (λ e. cc)
        (λ u d i. ⊎-map (λ x. x) (λ w. write-other m.woken t u false d ∙ w) i) refl h)
      h
advance_from-IsHeard spurious t notifying m at_t h =
    awake t idle m (set_pc t idle (notify_one m)) (λ e. cc)
      (λ u _ i. notify-more m.wakeup_list m u i refl)
      (ap (λ f. write f t idle) (notify-pcs m.wakeup_list m)) h

begin_from-IsHeard :
    (mode : Mode) (t : ℕ) (pc : Pc) (m : Mutex) → IsHeard m → IsHeard (begin_from mode t pc m)
unfolding begin_from set_pc
begin_from-IsHeard mode t idle m h =
    awake t (on_begin mode) m (set_pc t (on_begin mode) m) (on_begin-awake mode) (λ u _ i. i) refl h
begin_from-IsHeard mode t holds m h = h
begin_from-IsHeard mode t (loading n) m h = h
begin_from-IsHeard mode t (exchanging n) m h = h
begin_from-IsHeard mode t polling m h = h
begin_from-IsHeard mode t registering m h = h
begin_from-IsHeard mode t pending m h = h
begin_from-IsHeard mode t notifying m h = h

release_from-IsHeard : (t : ℕ) (pc : Pc) (m : Mutex) → IsHeard m → IsHeard (release_from t pc m)
unfolding release_from set_pc
release_from-IsHeard t holds m h =
    awake t notifying m (set_pc t notifying (record m { locked = false })) (λ e. cc) (λ u _ i. i)
      refl h
release_from-IsHeard t idle m h = h
release_from-IsHeard t (loading n) m h = h
release_from-IsHeard t (exchanging n) m h = h
release_from-IsHeard t polling m h = h
release_from-IsHeard t registering m h = h
release_from-IsHeard t pending m h = h
release_from-IsHeard t notifying m h = h

take_step-IsHeard : (s : Step) (m : Mutex) → IsHeard m → IsHeard (take_step s m)
unfolding take_step begin advance release
take_step-IsHeard (begins mode t) m h = begin_from-IsHeard mode t (m.pcs t) m h
take_step-IsHeard (advances spurious t) m h = advance_from-IsHeard spurious t (m.pcs t) m refl h
take_step-IsHeard (releases t) m h = release_from-IsHeard t (m.pcs t) m h

-- In every state that the threads reach, a task that is pending is on the list of wakers or has
-- been woken since: no waker is dropped.
pub IsReached-IsHeard :
    (m : Mutex) (u : ℕ)
    → IsReached m
    → m.pcs u ≡ pending
    → IsIn u m.wakeup_list ⊎ (m.woken u ≡ true)
unfolding new
IsReached-IsHeard m u r e = heard m r u e
  where
    heard : (m : Mutex) → IsReached m → IsHeard m
    heard _ at_start = λ u e. absurd cc
    heard _ (after_step m s r) = take_step-IsHeard s m (heard m r)
