-- ===== src/Sync/Mutex/Exclusive.antt =====
-- Mutual exclusion for the mutex of kernel/src/util/async/mutex.rs.
use zoom_os.Prelude.{
  ℕ, Bool, true, false, not, ◌&&◌, ◌≡◌, ◌≢◌, refl, sym, subst, ◌∙◌, ◌⊎◌, inl, inr, List, [], ◌∷◌,
  arith, Bool-cases, ◌==◌, ==_iff, if◌then◌else◌, write, write-same, write-other, write-All,
}
use zoom_os.Sync.Mutex.{
  Mode, try, spin, async, Pc, idle, loading, exchanging, holds, notifying, polling, registering,
  pending, Mutex, new, set_pc, register, notify, notify_one, on_fail, on_begin, advance_from,
  advance, begin_from, begin, release_from, release, Step, begins, advances, releases, take_step,
  IsReached, at_start, after_step,
}

-- The lock is free and nobody holds it, or one thread does.
abbrev pub IsExclusive : Bool → (ℕ → Pc) → Type 0
IsExclusive locked pcs =
    ((locked ≡ false) × ((u : ℕ) → pcs u ≢ holds))
    ⊎ ((locked ≡ true) × ((t : ℕ) × ((pcs t ≡ holds) × ((u : ℕ) → u ≢ t → pcs u ≢ holds))))

write-free :
    (pcs : ℕ → Pc) (t u : ℕ) (pc : Pc) → pcs u ≢ holds → pc ≢ holds → write pcs t pc u ≢ holds
write-free pcs t u pc before after = elim (Bool-cases (t == u)) [
  | inl same ↦ rw same after
  | inr other ↦ rw other before
]

-- A thread without a guard goes elsewhere.
moves :
    (locked : Bool) (pcs : ℕ → Pc) (t : ℕ) (pc : Pc)
    → pcs t ≢ holds
    → pc ≢ holds
    → IsExclusive locked pcs
    → IsExclusive locked (write pcs t pc)
moves locked pcs t pc before after (inl (free, nobody)) =
    inl (free, write-All (λ p. p ≢ holds) pcs t pc after (λ u d. nobody u))
moves locked pcs t pc before after (inr (taken, (o, (mine, others)))) =
    let differ : o ≢ t = λ e. before (rw⁻¹ e mine) in
    inr (
      taken,
      (o, (write-other pcs t o pc differ ∙ mine, λ u d. write-free pcs t u pc (others u d) after)),
    )

takes : (pcs : ℕ → Pc) (t : ℕ) → IsExclusive false pcs → IsExclusive true (write pcs t holds)
takes pcs t (inl (free, nobody)) =
    inr (
      refl,
      (t, (write-same pcs t holds, λ u d e. nobody u (sym (write-other pcs t u holds d) ∙ e))),
    )
takes pcs t (inr (taken, _)) = absurd cc

gives :
    (locked : Bool) (pcs : ℕ → Pc) (t : ℕ)
    → pcs t ≡ holds
    → IsExclusive locked pcs
    → IsExclusive false (write pcs t notifying)
gives locked pcs t mine (inl (free, nobody)) = absurd (nobody t mine)
gives locked pcs t mine (inr (taken, (o, (held, others)))) = elim (Bool-cases (t == o)) [
  | inl same ↦
      let t_is : t ≡ o = (==_iff t o).0 same in
      inl (
        refl,
        write-All (λ p. p ≢ holds) pcs t notifying (λ e. cc)
            (λ u d. others u (λ e. d (e ∙ sym t_is))),
      )
  | inr other ↦ let differ : t ≢ o = λ e. absurd (ground arith) in absurd (others t differ mine)
]

notify-Same :
    (queue : List ℕ) (m : Mutex)
    → ((notify queue m).locked ≡ m.locked) × ((notify queue m).pcs ≡ m.pcs)
unfolding notify
notify-Same [] m = (refl, refl)
notify-Same (t ∷ queue) m = (refl, refl)

on_fail-free : (mode : Mode) → on_fail mode ≢ holds
unfolding on_fail
on_fail-free try e = cc
on_fail-free spin e = cc
on_fail-free async e = cc

on_begin-free : (mode : Mode) → on_begin mode ≢ holds
unfolding on_begin
on_begin-free try e = cc
on_begin-free spin e = cc
on_begin-free async e = cc

-- The state before and after a step.
abbrev Keeps : Mutex → Mutex → Type 0
Keeps m after = IsExclusive m.locked m.pcs → IsExclusive after.locked after.pcs

set_pc-Keeps :
    (t : ℕ) (pc : Pc) (m : Mutex) → m.pcs t ≢ holds → pc ≢ holds → Keeps m (set_pc t pc m)
unfolding set_pc
set_pc-Keeps t pc m before after h = moves m.locked m.pcs t pc before after h

if-free : (b : Bool) (x y : Pc) → x ≢ holds → y ≢ holds → (if b then x else y) ≢ holds
if-free true x y p q = p
if-free false x y p q = q

if-Keeps :
    (b : Bool) (m x y : Mutex) → (b ≡ true → Keeps m x) → Keeps m y → Keeps m (if b then x else y)
if-Keeps true m x y p q = p refl
if-Keeps false m x y p q = q

free_of : (b c : Bool) → (not b && c) ≡ true → b ≡ false
free_of true c e = absurd cc
free_of false c e = refl

advance_from-Keeps :
    (spurious : Bool) (t : ℕ) (pc : Pc) (m : Mutex)
    → m.pcs t ≡ pc
    → Keeps m (advance_from spurious t pc m)
unfolding advance_from register notify_one set_pc
advance_from-Keeps spurious t idle m at_t h = h
advance_from-Keeps spurious t holds m at_t h = h
advance_from-Keeps spurious t (loading mode) m at_t h =
    moves m.locked m.pcs t _ (λ e. cc)
      (if-free m.locked (on_fail mode) (exchanging mode) (on_fail-free mode) (λ e. cc)) h
advance_from-Keeps spurious t (exchanging mode) m at_t h =
    if-Keeps (not m.locked && not spurious) m (set_pc t holds (record m { locked = true }))
      (set_pc t (on_fail mode) m)
      (λ e k.
        let free = free_of m.locked (not spurious) e in
        takes m.pcs t (subst (λ l. IsExclusive l m.pcs) free k))
      (λ k. moves m.locked m.pcs t (on_fail mode) (λ e. cc) (on_fail-free mode) k) h
advance_from-Keeps spurious t polling m at_t h =
    moves m.locked m.pcs t _ (λ e. cc)
      (if-free m.locked registering (loading async) (λ e. cc) (λ e. cc)) h
advance_from-Keeps spurious t registering m at_t h =
    moves m.locked m.pcs t pending (λ e. cc) (λ e. cc) h
advance_from-Keeps spurious t pending m at_t h =
    if-Keeps (m.woken t) m (set_pc t polling (record m { woken = write m.woken t false })) m
      (λ e k. moves m.locked m.pcs t polling (λ e. cc) (λ e. cc) k) (λ k. k) h
advance_from-Keeps spurious t notifying m at_t h =
    let (locked, pcs) = notify-Same m.wakeup_list m in
    rw (locked, pcs) (moves m.locked m.pcs t idle (λ e. cc) (λ e. cc) h)

begin_from-Keeps :
    (mode : Mode) (t : ℕ) (pc : Pc) (m : Mutex) → m.pcs t ≡ pc → Keeps m (begin_from mode t pc m)
unfolding begin_from set_pc
begin_from-Keeps mode t idle m at_t h =
    moves m.locked m.pcs t (on_begin mode) (λ e. cc) (on_begin-free mode) h
begin_from-Keeps mode t holds m at_t h = h
begin_from-Keeps mode t (loading n) m at_t h = h
begin_from-Keeps mode t (exchanging n) m at_t h = h
begin_from-Keeps mode t polling m at_t h = h
begin_from-Keeps mode t registering m at_t h = h
begin_from-Keeps mode t pending m at_t h = h
begin_from-Keeps mode t notifying m at_t h = h

release_from-Keeps : (t : ℕ) (pc : Pc) (m : Mutex) → m.pcs t ≡ pc → Keeps m (release_from t pc m)
unfolding release_from set_pc
release_from-Keeps t holds m at_t h = gives m.locked m.pcs t at_t h
release_from-Keeps t idle m at_t h = h
release_from-Keeps t (loading n) m at_t h = h
release_from-Keeps t (exchanging n) m at_t h = h
release_from-Keeps t polling m at_t h = h
release_from-Keeps t registering m at_t h = h
release_from-Keeps t pending m at_t h = h
release_from-Keeps t notifying m at_t h = h

take_step-Keeps : (s : Step) (m : Mutex) → Keeps m (take_step s m)
unfolding take_step begin advance release
take_step-Keeps (begins mode t) m h = begin_from-Keeps mode t (m.pcs t) m refl h
take_step-Keeps (advances spurious t) m h = advance_from-Keeps spurious t (m.pcs t) m refl h
take_step-Keeps (releases t) m h = release_from-Keeps t (m.pcs t) m refl h

IsReached-IsExclusive : (m : Mutex) → IsReached m → IsExclusive m.locked m.pcs
unfolding new
IsReached-IsExclusive _ at_start = inl (refl, λ u e. cc)
IsReached-IsExclusive _ (after_step m s r) = take_step-Keeps s m (IsReached-IsExclusive m r)

-- However the calls of the threads interleave and whichever exchanges fail for no reason: no two
-- threads hold a guard at once, and the lock is taken exactly while some thread holds one.
pub IsReached-locked :
    (m : Mutex)
    → IsReached m
    → ((t u : ℕ) → m.pcs t ≡ holds → m.pcs u ≡ holds → t ≡ u)
      × ((t : ℕ) → m.pcs t ≡ holds → m.locked ≡ true)
      × (m.locked ≡ true → (t : ℕ) × (m.pcs t ≡ holds))
IsReached-locked m r = elim (IsReached-IsExclusive m r) [
  | inl (free, nobody) ↦
      (λ t u p q. absurd (nobody t p), λ t p. absurd (nobody t p), λ e. absurd cc)
  | inr (taken, (o, (mine, others))) ↦
      let is_o : (t : ℕ) → m.pcs t ≡ holds → t ≡ o = λ t p. elim (Bool-cases (t == o)) [
        | inl same ↦ (==_iff t o).0 same
        | inr other ↦ absurd (others t (λ e. absurd (ground arith)) p)
      ] in
      (λ t u p q. is_o t p ∙ sym (is_o u q), λ t p. taken, λ e. (o, mine))
]
