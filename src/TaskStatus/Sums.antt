-- ===== src/TaskStatus/Sums.antt =====
-- taskstatus.go: the totals and the differences of a day agree.
use doris_sync.Base.{
  ℕ, suc, ◌+◌, ◌%◌, ◌≤◌, ◌<◌, String, List, [], ◌∷◌, map, ◌≡◌, refl, arith, All, length,
}
use doris_sync.TaskStatus.{
  HourComparison, word, add64, sub64, total, compare_hours, build_day_comparison,
}

abbrev pub sum : List ℕ → ℕ
sum [] = 0
sum (n ∷ ns) = n + sum ns

total_lem : (acc : ℕ) (ns : List ℕ) → acc < word → total acc ns ≡ (acc + sum ns) % word
unfolding total
total_lem acc [] h = omega arith
total_lem acc (n ∷ ns) h =
    let small : add64 acc n < word = omega arith in
    let rest = total_lem (add64 acc n) ns small in omega arith

-- A difference, put back.
back : (s t : ℕ) → s ≤ word → (sub64 t s + s) % word ≡ t % word
back s t h = omega arith

abbrev pub differences : List HourComparison → List ℕ
differences hours = map (λ h. h.difference) hours

hours_lem :
    (n : ℕ) (ss ts : List ℕ)
    → length ss ≡ length ts
    → All (λ s. s ≤ word) ss
    → (sum (differences (compare_hours n ss ts)) + sum ss) % word ≡ sum ts % word
unfolding compare_hours
hours_lem n [] [] e h = refl
hours_lem n [] (t ∷ ts) e h = absurd (cc e)
hours_lem n (s ∷ ss) [] e h = absurd (cc e)
hours_lem n (s ∷ ss) (t ∷ ts) e h =
    let first = back s t h.0 in
    let rest = hours_lem (suc n) ss ts (omega (arith, e)) h.1 in omega arith

-- The difference of a day is the sum of the differences of its hours, each and the sum as an int64
-- wraps them.
pub build_day_comparison-difference :
    (date zone : String) (ss ts : List ℕ)
    → length ss ≡ length ts
    → All (λ s. s ≤ word) ss
    → (build_day_comparison date zone ss ts).difference
      ≡ total 0 (differences (build_day_comparison date zone ss ts).hours)
unfolding build_day_comparison
build_day_comparison-difference date zone ss ts e h =
    let s = total_lem 0 ss (omega arith) in
    let t = total_lem 0 ts (omega arith) in
    let d = total_lem 0 (differences (compare_hours 0 ss ts)) (omega arith) in
    let all = hours_lem 0 ss ts e h in omega arith
