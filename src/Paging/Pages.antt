-- ===== src/Paging/Pages.antt =====
-- The pages of a range, counted.
use zoom_os.Prelude.{
  ℕ, zero, suc, ◌+◌, ◌*◌, ◌≤◌, ◌<◌, ◌≡◌, inl, inr, List, [], ◌∷◌, arith, IsIn, All, ap, refl,
  length, ◌∙◌, subst,
}
use zoom_os.Memory.{page_size}
use zoom_os.Paging.{PageRanges}

abbrev pub pages_from : ℕ → ℕ → List ℕ
pages_from start zero = []
pages_from start (suc n) = start ∷ pages_from (start + page_size) n

pub range-pages_from :
    (ranges : PageRanges) (start end n : ℕ)
    → end < start + n * page_size
    → start + n * page_size ≤ end + page_size
    → ranges.range start end ≡ pages_from start n
range-pages_from ranges start end zero small big = ranges.range-end start end (omega arith)
range-pages_from ranges start end (suc n) small big =
    ranges.range-next start end (omega arith)
    ∙ ap (◌∷◌ start) (range-pages_from ranges (start + page_size) end n (omega arith) (omega arith))

pub IsIn-pages_from :
    (p start n k : ℕ) → p ≡ start + k * page_size → k < n → IsIn p (pages_from start n)
IsIn-pages_from p start zero k e lt = absurd (omega arith)
IsIn-pages_from p start (suc n) zero e lt = inl (omega arith)
IsIn-pages_from p start (suc n) (suc k) e lt =
    inr (IsIn-pages_from p (start + page_size) n k (omega arith) (omega arith))

-- Every page of the list is one of the multiples.
pub All-pages_from {ℓ} :
    (P : ℕ → Type ℓ) (start n : ℕ)
    → ((k : ℕ) → k < n → P (start + k * page_size))
    → All P (pages_from start n)
All-pages_from P start zero h = tt
All-pages_from P start (suc n) h = (
  subst P first (h 0 (omega arith)),
  All-pages_from P (start + page_size) n (λ k lt. subst P (next k) (h (suc k) (omega arith))),
)
  where
    first : start + 0 * page_size ≡ start
    first = omega arith

    next : (k : ℕ) → start + suc k * page_size ≡ start + page_size + k * page_size
    next k = omega arith

-- A list whose elements differ.
abbrev pub IsDistinct : List ℕ → Type 0
IsDistinct [] = Unit {0}
IsDistinct (x ∷ xs) = ¬ IsIn x xs × IsDistinct xs

pub above : (p start n : ℕ) → p < start → ¬ IsIn p (pages_from start n)
above p start zero lt h = h
above p start (suc n) lt (inl e) = omega arith
above p start (suc n) lt (inr h) = above p (start + page_size) n (omega arith) h

pub pages_from-IsDistinct : (start n : ℕ) → IsDistinct (pages_from start n)
pages_from-IsDistinct start zero = tt
pages_from-IsDistinct start (suc n) =
    (above start (start + page_size) n (omega arith), pages_from-IsDistinct (start + page_size) n)

pub below : (p start n : ℕ) → start + n * page_size ≤ p → ¬ IsIn p (pages_from start n)
below p start zero le h = h
below p start (suc n) le (inl e) = omega arith
below p start (suc n) le (inr h) = below p (start + page_size) n (omega arith) h

pub length-pages_from : (start n : ℕ) → length (pages_from start n) ≡ n
length-pages_from start zero = refl
length-pages_from start (suc n) = ap suc (length-pages_from (start + page_size) n)
