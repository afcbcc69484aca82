-- ===== src/Administration/Orders/Laws.antt =====
-- The cancellation by an administrator cancels every order.
use raydium_amm.Swap.Steps.{ensured}
use raydium_amm.Swap.Cancel.{cancel_calls}
use raydium_amm.Liquidity.Withdraw.Orders.{interleave, both_batches-Batches}
use raydium_amm.Swap.Cancel.Laws.{Batches}
use raydium_amm.State.Loading.{AmmConfig, load_config}
use raydium_amm.Swap.Accounts.{Call, OrderBook, MarketAccount}
use raydium_amm.Administration.Orders.{
  check_admin_cancel, do_cancel_amm_orders, check_cancel_owner, process_admin_cancel_orders,
  CancelAccounts, settlement,
}
use raydium_amm.Prelude.{
  Bool, Ensures, ℕ, List, ◌≡◌, ◌&&◌, true, ◌==◌, ok, ◌||◌, ensures_value, ◌⊎◌, of_ok, Bool-cases,
  bind-Ensures, ensure, of_err, inl, arith, ◌++◌, ok-injective, skip, inr, false, sym, refl, ◌∙◌,
  subst, always, ==→eq, [], ◌+◌, ◌∷◌, ◌<◌,
}
use raydium_amm.Administration.Accounts.{AdminRuntime}
use raydium_amm.Errors.{AmmError}

-- The caller has signed, and is the owner that the build names or the one that the account at the address
-- of the configuration names.
abbrev pub IsCanceller : AdminRuntime → CancelAccounts → Type 0
IsCanceller runtime accounts =
    (accounts.amm_owner_is_signer ≡ true)
    × (accounts.amm_config_key ≡ runtime.config_address)
    × ((accounts.amm_owner ≡ runtime.amm_owner_id)
        ⊎ ((config : AmmConfig) × (load_config accounts.amm_config ≡ ok config)
            × (accounts.amm_owner ≡ config.cancel_owner)))

-- Each array of ids is cancelled by one call; `rest` is what follows.
pub data Cancels : List (List ℕ) → (calls rest : List Call) → Type 0 where
  all_cancelled : {rest : List Call} → Cancels [] rest rest
  cancelled :
      {ids : List ℕ} {vec : List (List ℕ)} {calls rest : List Call}
      → Cancels vec calls rest
      → Cancels (ids ∷ vec) (Call.cancel_orders ids ∷ calls) rest

-- One settlement with the market's vaults where something is free, and none where nothing is.
abbrev pub Settles : (coin_free pc_free : ℕ) → List Call → Type 0
Settles coin_free pc_free rest =
    (coin_free + pc_free ≡ 0 → rest ≡ [])
    × (0 < coin_free + pc_free
        → rest
          ≡ Call.settle_funds MarketAccount.market_coin_vault MarketAccount.market_pc_vault ∷ [])

-- The calls cancel the bids and asks in turn, and then settle where something is free.
abbrev pub IsCancelled : AdminRuntime → List Call → Type 0
IsCancelled runtime calls =
    (book : OrderBook) × (vec : List (List ℕ)) × (coin_free : ℕ) × (pc_free : ℕ) × (rest : List
      Call)
    × (runtime.load_book ≡ ok book)
    × (runtime.load_free ≡ ok (coin_free, pc_free))
    × Batches (interleave book.bids book.asks) vec
    × Cancels vec calls rest
    × Settles coin_free pc_free rest

cancel_calls-Cancels :
    (vec : List (List ℕ)) (rest : List Call) → Cancels vec (cancel_calls vec ++ rest) rest
unfolding cancel_calls
cancel_calls-Cancels [] rest = all_cancelled
cancel_calls-Cancels (ids ∷ vec) rest = cancelled (cancel_calls-Cancels vec rest)

settlement-Settles :
    (coin_free pc_free : ℕ) → Settles coin_free pc_free (settlement coin_free pc_free)
unfolding settlement
settlement-Settles coin_free pc_free = (λ h. ground arith, λ h. ground arith)

one_of_two :
    (signer : Bool) (a b c : ℕ)
    → (signer && (a == b || a == c)) ≡ true
    → (signer ≡ true) × ((a ≡ b) ⊎ (a ≡ c))
one_of_two false a b c h = cc
one_of_two true a b c h = elim (Bool-cases (a == b)) [
  | inl e ↦ (refl, inl (ground arith))
  | inr e ↦ (refl, inr (ground arith))
]

check_cancel_owner-IsCanceller :
    (runtime : AdminRuntime) (accounts : CancelAccounts)
    → Ensures (λ _. IsCanceller runtime accounts) (check_cancel_owner runtime accounts)
unfolding check_cancel_owner
check_cancel_owner-IsCanceller runtime accounts = bind-Ensures _ _ (λ _ e_key.
    bind-Ensures _ _ (λ config e.
      last config e (==→eq _ _ (ensured _ _ e_key))
        (accounts.amm_owner_is_signer
          && (accounts.amm_owner == runtime.amm_owner_id
              || accounts.amm_owner == config.cancel_owner))
        (one_of_two accounts.amm_owner_is_signer accounts.amm_owner runtime.amm_owner_id
          config.cancel_owner)))
  where
    last :
        (config : AmmConfig)
        → load_config accounts.amm_config ≡ ok config
        → runtime.config_address ≡ accounts.amm_config_key
        → (test : Bool)
        → (test ≡ true
            → (accounts.amm_owner_is_signer ≡ true)
              × ((accounts.amm_owner ≡ runtime.amm_owner_id)
                  ⊎ (accounts.amm_owner ≡ config.cancel_owner)))
        → Ensures (λ _. IsCanceller runtime accounts) (ensure test AmmError.invalid_sign_account)
    last config e key true h =
        let (signer, owners) = h refl in
        of_ok (elim owners [
          | inl owner ↦ (signer, sym key, inl owner)
          | inr owner ↦ (signer, sym key, inr (config, e, owner))
        ])
    last config e key false h = of_err

check_admin_cancel-IsCanceller :
    (runtime : AdminRuntime) (accounts : CancelAccounts)
    → Ensures (λ _. IsCanceller runtime accounts) (check_admin_cancel runtime accounts)
unfolding check_admin_cancel
check_admin_cancel-IsCanceller runtime accounts = skip _ _ (λ _. skip _ _ (λ _. skip _ _ (λ amm.
    skip _ _ (λ authority. skip _ _ (λ _. skip _ _ (λ _. bind-Ensures _ _ (λ u e.
      let canceller =
        ensures_value {P = λ _. IsCanceller runtime accounts} _
          (check_cancel_owner-IsCanceller runtime accounts) e in
      skip _ _ (λ _. skip _ _ (λ _. skip _ _ (λ _. always _ canceller))))))))))

do_cancel-Batches :
    (runtime : AdminRuntime)
    → Ensures
        (λ calls.
          (book : OrderBook) × (vec : List (List ℕ)) × (runtime.load_book ≡ ok book)
          × Batches (interleave book.bids book.asks) vec
          × (calls ≡ cancel_calls vec))
        (do_cancel_amm_orders runtime)
unfolding do_cancel_amm_orders
do_cancel-Batches runtime = bind-Ensures _ _ (λ book e_book. bind-Ensures _ _ (λ vec e_vec.
    let (vec', runs, batches) = both_batches-Batches book.bids book.asks in
    let same : vec' ≡ vec = ok-injective vec' vec (sym runs ∙ e_vec) in
    of_ok (book, vec, e_book, subst (Batches (interleave book.bids book.asks)) same batches, refl)))

-- A cancellation by an administrator that succeeds was signed by the owner that the build names or by the
-- one that the account at the address of the configuration names; its calls cancel every bid and ask that
-- the pool has in the order book, in arrays of eight, and then settle once if something is free, and make
-- no other call.
pub process_admin_cancel_orders-IsCancelled :
    (runtime : AdminRuntime) (accounts : CancelAccounts) {calls : List Call}
    → process_admin_cancel_orders runtime accounts ≡ ok calls
    → IsCanceller runtime accounts × IsCancelled runtime calls
unfolding process_admin_cancel_orders
process_admin_cancel_orders-IsCancelled runtime accounts =
    ensures_value {P = λ calls. IsCanceller runtime accounts × IsCancelled runtime calls}
      (process_admin_cancel_orders runtime accounts)
      (bind-Ensures _ _ (λ u e_check. bind-Ensures _ _ (λ calls e_calls.
        bind-Ensures _ _ (λ (coin_free, pc_free) e_free.
          let canceller =
            ensures_value {P = λ _. IsCanceller runtime accounts} _
              (check_admin_cancel-IsCanceller runtime accounts) e_check in
          let (book, vec, e_book, batches, same) =
            ensures_value
              {P = λ calls.
                (book : OrderBook) × (vec : List (List ℕ)) × (runtime.load_book ≡ ok book)
                × Batches (interleave book.bids book.asks) vec
                × (calls ≡ cancel_calls vec)}
              _ (do_cancel-Batches runtime) e_calls in
          of_ok (
            canceller,
            (
              book,
              vec,
              coin_free,
              pc_free,
              settlement coin_free pc_free,
              e_book,
              e_free,
              batches,
              rw same (cancel_calls-Cancels vec (settlement coin_free pc_free)),
              settlement-Settles coin_free pc_free,
            ),
          )))))
