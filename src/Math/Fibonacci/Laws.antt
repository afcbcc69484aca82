-- ===== src/Math/Fibonacci/Laws.antt =====
-- The table that `fibonacci` builds.
use raydium_amm.Prelude.{
  ◌>>=◌, ℕ, zero, suc, ◌+◌, ◌-◌, ◌≤◌, ◌<◌, ◌≡◌, refl, ◌∙◌, List, [], ◌∷◌, ◌++◌, some, Bool-cases,
  ltb, ltb→lt, inl, inr, subst, >>=-eq-ok, get_elem?, length, length-append, ok, arith,
}
use native.Mathlib.Numerals.{add-one}
use raydium_amm.State.Constants.{max_order_limit}
use raydium_amm.Math.Fibonacci.{fibonacci, fibonacci_loop, fibonacci_elem}

-- 1, 2, 3, 5, 8, …
pub tail_term : ℕ → ℕ
tail_term zero = 1
tail_term (suc zero) = 2
tail_term (suc (suc n)) = tail_term n + tail_term (suc n)

-- 0, 1, 2, 3, 5, 8, …
pub term : ℕ → ℕ
term zero = 0
term (suc n) = tail_term n

pub table : ℕ → List ℕ
table zero = []
table (suc n) = table n ++ term n ∷ []

length-table : (n : ℕ) → length (table n) ≡ n
unfolding table
length-table zero = refl
length-table (suc n) = omega (arith, length-append {0} (table n) (term n ∷ []), length-table n)

get_elem?-append_left :
    (xs ys : List ℕ) (i : ℕ) → i < length xs → get_elem? (xs ++ ys) i ≡ get_elem? xs i
get_elem?-append_left [] ys i h = elim h [ ]
get_elem?-append_left (x ∷ xs) ys zero h = refl
get_elem?-append_left (x ∷ xs) ys (suc i) h = get_elem?-append_left xs ys i (omega arith)

get_elem?-append_length : (xs : List ℕ) (y : ℕ) → get_elem? (xs ++ y ∷ []) (length xs) ≡ some y
get_elem?-append_length [] y = refl
get_elem?-append_length (x ∷ xs) y = get_elem?-append_length xs y

last_of_table : (n : ℕ) → get_elem? (table (suc n)) n ≡ some (term n)
unfolding table
last_of_table n =
    subst (λ (k : ℕ). get_elem? (table n ++ term n ∷ []) k ≡ some (term n)) (length-table n)
      (get_elem?-append_length (table n) (term n))

get_elem?-table : (n i : ℕ) → i < n → get_elem? (table n) i ≡ some (term i)
unfolding table
get_elem?-table zero i h = elim h [ ]
get_elem?-table (suc n) i h = elim (Bool-cases (ltb i n)) [
  | inl below ↦
      let lt = ltb→lt i n below in
      get_elem?-append_left (table n) (term n ∷ []) i (omega (arith, length-table n))
      ∙ get_elem?-table n i lt
  | inr top ↦ let e : i ≡ n = ground arith in rw e (last_of_table n)
]

push_next :
    (xs : List ℕ) (i a b : ℕ) {r : ℕ}
    → 3 ≤ i
    → get_elem? xs (i - 1) ≡ some a
    → get_elem? xs (i - 2) ≡ some b
    → fibonacci_elem xs i ≡ ok r
    → r ≡ b + a
unfolding fibonacci_elem ◌>>=◌
push_next xs i a b h ea eb run = ground arith

-- A round pushes the next term, or panics.
elem_of_table : (i : ℕ) {r : ℕ} → fibonacci_elem (table i) i ≡ ok r → r ≡ term i
unfolding term tail_term
elem_of_table zero h = unfold fibonacci_elem ◌>>=◌ in ground arith
elem_of_table (suc zero) h = unfold fibonacci_elem ◌>>=◌ in ground arith
elem_of_table (suc (suc zero)) h = unfold fibonacci_elem ◌>>=◌ in ground arith
elem_of_table (suc (suc (suc j))) h =
    let i = suc (suc (suc j)) in
    let one_back : i - 1 ≡ suc (suc j) = omega arith in
    let two_back : i - 2 ≡ suc j = omega arith in
    push_next (table i) i (term (suc (suc j))) (term (suc j)) (omega arith)
      (rw one_back (get_elem?-table i (suc (suc j)) (omega arith)))
      (rw two_back (get_elem?-table i (suc j) (omega arith))) h

loop_of_table : (n i : ℕ) {fb : List ℕ} → fibonacci_loop n i (table i) ≡ ok fb → fb ≡ table (i + n)
unfolding fibonacci_loop ◌>>=◌
loop_of_table zero i h = let e : i + zero ≡ i = omega arith in rw e (cc)
loop_of_table (suc n) i h =
    let (r, pushed, rest) = >>=-eq-ok (fibonacci_elem (table i) i) _ h in
    let e : table i ++ r ∷ [] ≡ table (i + 1) =
      rw (elem_of_table i pushed, add-one) (unfold table in refl) in
    let run = rw e at rest in
    let shift : i + suc n ≡ i + 1 + n = omega arith in rw shift (loop_of_table n (i + 1) run)

fits_limit : (n : ℕ) → n ≤ max_order_limit → fibonacci n ≡ ok (table n)
unfolding fibonacci table term tail_term ◌>>=◌
fits_limit zero h = refl
fits_limit (suc zero) h = refl
fits_limit (suc (suc zero)) h = refl
fits_limit (suc (suc (suc zero))) h = refl
fits_limit (suc (suc (suc (suc zero)))) h = refl
fits_limit (suc (suc (suc (suc (suc zero))))) h = refl
fits_limit (suc (suc (suc (suc (suc (suc zero)))))) h = refl
fits_limit (suc (suc (suc (suc (suc (suc (suc zero))))))) h = refl
fits_limit (suc (suc (suc (suc (suc (suc (suc (suc zero)))))))) h = refl
fits_limit (suc (suc (suc (suc (suc (suc (suc (suc (suc zero))))))))) h = refl
fits_limit (suc (suc (suc (suc (suc (suc (suc (suc (suc (suc zero)))))))))) h = refl
fits_limit (suc (suc (suc (suc (suc (suc (suc (suc (suc (suc (suc n))))))))))) h =
    absurd (omega arith)

built : (n : ℕ) {fb : List ℕ} → fibonacci n ≡ ok fb → fb ≡ table n
unfolding fibonacci table ◌>>=◌
built n h = let e : 0 + n ≡ n = omega arith in rw e at (loop_of_table n 0 h)

-- Up to the limit that `SetParams` puts on the number of orders (10) the table is built without a
-- panic; whatever the number, a table that is built is 0, 1, 2, 3, 5, 8, …, each term from the
-- fourth on the sum of the two before it, and as long as asked for.
pub fibonacci-table :
    (order_num : ℕ)
    → (order_num ≤ max_order_limit → fibonacci order_num ≡ ok (table order_num))
      × ((fb : List ℕ)
          → fibonacci order_num ≡ ok fb
          → (fb ≡ table order_num) × (length fb ≡ order_num))
fibonacci-table n = (fits_limit n, λ fb h. let e = built n h in (e, rw e (length-table n)))
