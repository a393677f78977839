-- ===== src/Display/Buffer.antt =====
-- Bytes in memory and the copies of rows that kernel/src/framebuffer.rs makes.
use zoom_os.Prelude.{
  ℕ, zero, suc, ◌+◌, ◌≤◌, ◌<◌, ◌≡◌, ◌≢◌, refl, ◌∙◌, Option, none, some, arith, leb, ltb,
  if◌then◌else◌, ◌>>=◌, write, write-same, write-other, ◌==◌, Bool-cases, inl, inr, true, ◌⊎◌,
}

pub record Buffer : Type 0 where
  pub len : ℕ
  pub bytes : ℕ → ℕ

-- A write by index; `none` is the panic out of bounds.
unfoldable pub set_byte : ℕ → ℕ → Buffer → Option Buffer
set_byte i v b = if ltb i b.len then some (record b { bytes = write b.bytes i v }) else none

-- `copy_nonoverlapping` of `count` bytes to an offset.
unfoldable pub copy_bytes : ℕ → (ℕ → ℕ) → ℕ → (ℕ → ℕ) → ℕ → ℕ
copy_bytes zero src offset dst = dst
copy_bytes (suc n) src offset dst = write (copy_bytes n src offset dst) (offset + n) (src n)

-- `none` where it would write out of the buffer.
unfoldable pub copy_row : ℕ → (ℕ → ℕ) → ℕ → Buffer → Option Buffer
copy_row count src offset b =
    if leb (offset + count) b.len
    then some (record b { bytes = copy_bytes count src offset b.bytes })
    else none

-- The loop over rows: each row has its source and its offset.
unfoldable pub copy_rows : ℕ → ℕ → (ℕ → ℕ → ℕ) → (ℕ → ℕ) → Buffer → Option Buffer
copy_rows zero count src offset b = some b
copy_rows (suc y) count src offset b =
    copy_rows y count src offset b >>= λ above. copy_row count (src y) (offset y) above

pub copy_bytes-inside :
    (count : ℕ) (src : ℕ → ℕ) (offset : ℕ) (dst : ℕ → ℕ) (i : ℕ)
    → i < count
    → copy_bytes count src offset dst (offset + i) ≡ src i
unfolding copy_bytes
copy_bytes-inside zero src offset dst i lt = absurd (omega arith)
copy_bytes-inside (suc n) src offset dst i lt = elim (Bool-cases (i == n)) [
  | inl same ↦
      let is_n : i ≡ n = ground arith in
      rw is_n (write-same (copy_bytes n src offset dst) (offset + n) (src n))
  | inr other ↦
      let differ : offset + i ≢ offset + n = λ e. absurd (ground arith) in
      write-other (copy_bytes n src offset dst) (offset + n) (offset + i) (src n) differ
      ∙ copy_bytes-inside n src offset dst i (ground arith)
]

pub copy_bytes-before :
    (count : ℕ) (src : ℕ → ℕ) (offset : ℕ) (dst : ℕ → ℕ) (j : ℕ)
    → j < offset
    → copy_bytes count src offset dst j ≡ dst j
unfolding copy_bytes
copy_bytes-before zero src offset dst j lt = refl
copy_bytes-before (suc n) src offset dst j lt =
    write-other (copy_bytes n src offset dst) (offset + n) j (src n)
      (λ e. absurd (omega (arith, e, lt)))
    ∙ copy_bytes-before n src offset dst j lt

pub copy_bytes-behind :
    (count : ℕ) (src : ℕ → ℕ) (offset : ℕ) (dst : ℕ → ℕ) (j : ℕ)
    → offset + count ≤ j
    → copy_bytes count src offset dst j ≡ dst j
unfolding copy_bytes
copy_bytes-behind zero src offset dst j le = refl
copy_bytes-behind (suc n) src offset dst j le =
    write-other (copy_bytes n src offset dst) (offset + n) j (src n)
      (λ e. absurd (omega (arith, e, le)))
    ∙ copy_bytes-behind n src offset dst j (omega arith)

-- Rows that do not overlap, each before the next.
abbrev pub AreApart : ℕ → (ℕ → ℕ) → Type 0
AreApart count offset = (y z : ℕ) → y < z → offset y + count ≤ offset z

-- The bytes after the loop, with no bounds.
unfoldable pub rows_of : ℕ → ℕ → (ℕ → ℕ → ℕ) → (ℕ → ℕ) → (ℕ → ℕ) → ℕ → ℕ
rows_of zero count src offset dst = dst
rows_of (suc y) count src offset dst =
    copy_bytes count (src y) (offset y) (rows_of y count src offset dst)

module _ (count : ℕ) (src : ℕ → ℕ → ℕ) (offset : ℕ → ℕ) where
  -- If every row ends in the buffer, the loop writes no byte out of it.
  pub copy_rows-some :
      (n : ℕ) (b : Buffer)
      → ((y : ℕ) → y < n → offset y + count ≤ b.len)
      → copy_rows n count src offset b
        ≡ some (record b { bytes = rows_of n count src offset b.bytes })
  unfolding copy_rows copy_row rows_of
  copy_rows-some zero b fits = refl
  copy_rows-some (suc y) b fits =
      let above = copy_rows-some y b (λ z lt. fits z (omega arith)) in
      let inside : leb (offset y + count) b.len ≡ true =
        let le = fits y (omega arith) in ground arith in
      rw (above, inside) refl

  pub rows_of-inside :
      AreApart count offset
      → (n : ℕ) (dst : ℕ → ℕ) (y i : ℕ) → y < n
      → i < count
      → rows_of n count src offset dst (offset y + i) ≡ src y i
  unfolding rows_of
  rows_of-inside apart zero dst y i lt le = absurd (omega arith)
  rows_of-inside apart (suc n) dst y i lt le = elim (Bool-cases (y == n)) [
    | inl same ↦
        let is_n : y ≡ n = ground arith in
        rw is_n (copy_bytes-inside count (src n) (offset n) (rows_of n count src offset dst) i le)
    | inr other ↦
        let above : y < n = ground arith in
        copy_bytes-before count (src n) (offset n) (rows_of n count src offset dst) (offset y + i)
          (let far = apart y n above in omega (arith, far, le))
        ∙ rows_of-inside apart n dst y i above le
  ]

  -- A byte that lies before or behind each row stays.
  pub rows_of-outside :
      (n : ℕ) (dst : ℕ → ℕ) (j : ℕ)
      → ((y : ℕ) → y < n → (j < offset y) ⊎ (offset y + count ≤ j))
      → rows_of n count src offset dst j ≡ dst j
  unfolding rows_of
  rows_of-outside zero dst j out = refl
  rows_of-outside (suc n) dst j out =
      let rest = rows_of-outside n dst j (λ y lt. out y (omega arith)) in
      elim (out n (omega arith)) [
        | inl before ↦
            copy_bytes-before count (src n) (offset n) (rows_of n count src offset dst) j before
            ∙ rest
        | inr behind ↦
            copy_bytes-behind count (src n) (offset n) (rows_of n count src offset dst) j behind
            ∙ rest
      ]
