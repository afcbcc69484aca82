-- ===== src/State/Status/Laws.antt =====
-- The numbers of `AmmStatus`, and what the permissions imply.
use raydium_amm.Prelude.{ℕ, ◌≡◌, ◌≢◌, ◌↔◌, ◌⊎◌, refl, true, false, ok, has_value, arith}
use raydium_amm.State.Status.{
  AmmStatus, from_u64, into_u64, valid_status, deposit_permission, withdraw_permission,
  swap_permission, orderbook_permission,
}

pub status_from-into : (s : AmmStatus) → from_u64 (into_u64 s) ≡ ok s
unfolding from_u64 into_u64
status_from-into AmmStatus.uninitialized = refl
status_from-into _ = refl

pub status_into-from : (n : ℕ) {s : AmmStatus} → from_u64 n ≡ ok s → into_u64 s ≡ n
unfolding from_u64 into_u64
status_into-from n h = ground arith

valid_iff : (t : AmmStatus) → (valid_status (into_u64 t) ≡ true) ↔ (t ≢ AmmStatus.uninitialized)
unfolding valid_status into_u64
valid_iff AmmStatus.uninitialized = ground arith
valid_iff _ = ground arith

valid_stands : (n : ℕ) → valid_status n ≡ true → (t : AmmStatus) × (from_u64 n ≡ ok t)
unfolding valid_status from_u64
valid_stands n h = has_value (from_u64 n) (λ k. ground arith) (λ e k. ground arith)

-- `from_u64` and `into_u64` are inverse to one another; a number is a valid status exactly when it
-- stands for a status other than `Uninitialized`.
status_numbers :
    (n : ℕ) (s : AmmStatus)
    → ((from_u64 n ≡ ok s) ↔ (into_u64 s ≡ n))
      × ((valid_status (into_u64 s) ≡ true) ↔ (s ≢ AmmStatus.uninitialized))
      × (valid_status n ≡ true → (t : AmmStatus) × (from_u64 n ≡ ok t))
status_numbers n s =
    ((λ h. status_into-from n h, λ h. rw (← h) (status_from-into s)), valid_iff s, valid_stands n)

-- Who may swap may deposit, who may deposit may withdraw, and where orders are kept deposits are
-- possible. The permission to withdraw is refused in `Uninitialized` and `Disabled` alone.
pub status_permissions :
    (s : AmmStatus)
    → (swap_permission s ≡ true → deposit_permission s ≡ true)
      × (deposit_permission s ≡ true → withdraw_permission s ≡ true)
      × (orderbook_permission s ≡ true → deposit_permission s ≡ true)
      × ((withdraw_permission s ≡ false)
          ↔ ((s ≡ AmmStatus.uninitialized) ⊎ (s ≡ AmmStatus.disabled)))
unfolding deposit_permission withdraw_permission swap_permission orderbook_permission
status_permissions AmmStatus.uninitialized = ground arith
status_permissions _ = ground arith
