-- ===== src/Swap/Cancel/Laws.antt =====
-- The calls cancel every order, and no other.
use raydium_amm.Prelude.{
  ℕ, zero, suc, ◌+◌, ◌<◌, ◌≡◌, refl, sym, ap, ◌∙◌, subst, List, [], ◌∷◌, ◌++◌, length,
  length-append, All, ◌==◌, true, false, arith, Bool-cases, inl, inr,
}
use mathlib.Core.List.{append_assoc, append-nil}
use raydium_amm.Swap.Cancel.{no_ids, set_id, push_id, batch_orders, order_id_batches}

abbrev pub concat : List (List ℕ) → List ℕ
concat [] = []
concat (xs ∷ xss) = xs ++ concat xss

abbrev pub zeros : ℕ → List ℕ
zeros zero = []
zeros (suc n) = 0 ∷ zeros n

-- Arrays of eight ids, which are the given ones and then fewer than eight zeros.
abbrev pub Batches : List ℕ → List (List ℕ) → Type 0
Batches ids vec = (n : ℕ) × (n < 8) × (concat vec ≡ ids ++ zeros n) × All (λ xs. length xs ≡ 8) vec

-- The state of the loop: the arrays have the ids seen so far, but for those at the front of the
-- array that is being filled, behind which there are zeros.
abbrev IsBatching : List ℕ → List (List ℕ) × List ℕ × ℕ → Type 0
IsBatching seen (vec, order_ids, count) =
    (front : List ℕ) × (m : ℕ) × (length front ≡ count)
    × (count + suc m ≡ 8)
    × (order_ids ≡ front ++ zeros (suc m))
    × (seen ≡ concat vec ++ front)
    × All (λ xs. length xs ≡ 8) vec

set_id-append :
    (front : List ℕ) (m id : ℕ)
    → set_id (front ++ zeros (suc m)) (length front) id ≡ (front ++ (id ∷ [])) ++ zeros m
unfolding set_id
set_id-append [] m id = refl
set_id-append (x ∷ front) m id = ap (λ xs. x ∷ xs) (set_id-append front m id)

concat-append : (xss : List (List ℕ)) (xs : List ℕ) → concat (xss ++ (xs ∷ [])) ≡ concat xss ++ xs
concat-append [] xs = append-nil xs
concat-append (ys ∷ xss) xs =
    ap (λ zs. ys ++ zs) (concat-append xss xs) ∙ sym (append_assoc ys (concat xss) xs)

All-append :
    (xss : List (List ℕ)) (xs : List ℕ)
    → All (λ ys. length ys ≡ 8) xss
    → length xs ≡ 8
    → All (λ ys. length ys ≡ 8) (xss ++ (xs ∷ []))
All-append [] xs h e = (e, tt)
All-append (ys ∷ xss) xs (h, hs) e = (h, All-append xss xs hs e)

length-zeros : (n : ℕ) → length (zeros n) ≡ n
length-zeros zero = refl
length-zeros (suc n) = ap suc (length-zeros n)

nil_of_length : (xs : List ℕ) → length xs ≡ 0 → xs ≡ []
nil_of_length [] h = refl
nil_of_length (x ∷ xs) h = let none_left : ⊥ = omega arith in absurd none_left

filled : (n : ℕ) → n + 1 ≡ 8 → (n + 1 == 8) ≡ true
filled n h = ground arith

unfilled : (n m : ℕ) → n + suc (suc m) ≡ 8 → (n + 1 == 8) ≡ false
unfilled n m h = ground arith

stored :
    (order_ids front : List ℕ) (count m id : ℕ)
    → length front ≡ count
    → order_ids ≡ front ++ zeros (suc m)
    → set_id order_ids count id ≡ (front ++ (id ∷ [])) ++ zeros m
stored order_ids front count m id len array = rw array (rw (sym len) (set_id-append front m id))

length-stored : (front : List ℕ) (id : ℕ) → length (front ++ (id ∷ [])) ≡ length front + 1
length-stored front id = length-append {0} front (id ∷ [])

seen_next :
    (seen front : List ℕ) (vec : List (List ℕ)) (id : ℕ)
    → seen ≡ concat vec ++ front
    → seen ++ (id ∷ []) ≡ concat vec ++ (front ++ (id ∷ []))
seen_next seen front vec id eq =
    ap (λ xs. xs ++ (id ∷ [])) eq ∙ append_assoc (concat vec) front (id ∷ [])

-- One more id, in an array that it fills or does not fill.
push_id-IsBatching :
    (seen : List ℕ) (state : List (List ℕ) × List ℕ × ℕ) (id : ℕ)
    → IsBatching seen state
    → IsBatching (seen ++ (id ∷ [])) (push_id state id)
unfolding push_id
push_id-IsBatching seen (vec, order_ids, count) id (front, zero, len, room, array, eq, full) =
    let array' : set_id order_ids count id ≡ front ++ (id ∷ []) =
      stored order_ids front count 0 id len array ∙ append-nil (front ++ (id ∷ [])) in
    let eight : length (set_id order_ids count id) ≡ 8 =
      ap length array' ∙ (length-stored front id ∙ (ap (λ n. n + 1) len ∙ room)) in
    let kept =
      seen_next seen front vec id eq
      ∙ (ap (λ xs. concat vec ++ xs) (sym array')
          ∙ (sym (concat-append vec (set_id order_ids count id)) ∙ sym (append-nil _))) in
    rw (filled count room)
      ([], 7, refl, refl, refl, kept, All-append vec (set_id order_ids count id) full eight)
push_id-IsBatching seen (vec, order_ids, count) id (front, suc m, len, room, array, eq, full) =
    rw (unfilled count m room) (
      front ++ (id ∷ []),
      m,
      length-stored front id ∙ ap (λ n. n + 1) len,
      omega arith,
      stored order_ids front count (suc m) id len array,
      seen_next seen front vec id eq,
      full,
    )

is_zero : (n : ℕ) → (n == 0) ≡ true → n ≡ 0
is_zero n h = ground arith

behind : (n m : ℕ) → n + suc m ≡ 8 → (n == 0) ≡ false → suc m < 8
behind n m room h = ground arith

batch_orders-Batches :
    (ids seen : List ℕ) (state : List (List ℕ) × List ℕ × ℕ)
    → IsBatching seen state
    → Batches (seen ++ ids) (batch_orders state ids)
unfolding batch_orders
batch_orders-Batches [] seen (vec, order_ids, count) (front, m, len, room, array, eq, full) =
    elim (Bool-cases (count == 0)) [
      | inl none_left ↦
          let empty = nil_of_length front (len ∙ is_zero count none_left) in
          let same : concat vec ≡ (seen ++ []) ++ [] =
            sym (append-nil (concat vec))
            ∙ (ap (λ xs. concat vec ++ xs) (sym empty)
                ∙ (sym eq ∙ (sym (append-nil seen) ∙ sym (append-nil (seen ++ []))))) in
          rw none_left (0, omega arith, same, full)
      | inr some_left ↦
          let eight : length order_ids ≡ 8 =
            ap length array
            ∙ (length-append {0} front (zeros (suc m))
                ∙ (ap (λ n. n + length (zeros (suc m))) len
                    ∙ (ap (λ n. count + n) (length-zeros (suc m)) ∙ room))) in
          let same : concat (vec ++ (order_ids ∷ [])) ≡ (seen ++ []) ++ zeros (suc m) =
            concat-append vec order_ids
            ∙ (ap (λ xs. concat vec ++ xs) array
                ∙ (sym (append_assoc (concat vec) front (zeros (suc m)))
                    ∙ ap (λ xs. xs ++ zeros (suc m)) (sym eq ∙ sym (append-nil seen)))) in
          rw some_left
            (suc m, behind count m room some_left, same, All-append vec order_ids full eight)
    ]
batch_orders-Batches (id ∷ ids) seen state h =
    subst (λ xs. Batches xs (batch_orders (push_id state id) ids)) (append_assoc seen (id ∷ []) ids)
      (batch_orders-Batches ids (seen ++ (id ∷ [])) (push_id state id)
        (push_id-IsBatching seen state id h))

-- The arrays of the calls that cancel the orders have eight ids each; one behind another they are the
-- given ids in their order, and then fewer than eight zeros.
pub order_id_batches-Batches : (ids : List ℕ) → Batches ids (order_id_batches ids)
unfolding order_id_batches
order_id_batches-Batches ids =
    batch_orders-Batches ids [] ([], no_ids, 0) ([], 7, refl, refl, refl, refl, tt)
