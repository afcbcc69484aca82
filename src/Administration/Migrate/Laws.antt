-- ===== src/Administration/Migrate/Laws.antt =====
-- A pool that is moved to another market.
use raydium_amm.Administration.Config.Laws.{signed_by}
use raydium_amm.Errors.{AmmError}
use raydium_amm.Swap.Steps.{ensured, passes}
use raydium_amm.State.Orders.{TargetOrders}
use raydium_amm.Swap.Prepare.{calc_exact_vault_in_serum}
use raydium_amm.State.Loading.{load_amm}
use raydium_amm.Initialization.Create.{NewMarket}
use raydium_amm.State.Fees.Laws.{IsValid}
use raydium_amm.Swap.Accounts.{OrderBook, Call}
use raydium_amm.Administration.Accounts.{AdminRuntime}
use raydium_amm.Uint.{Uint}
use raydium_amm.State.Amm.{initial_pool, AmmInfo, initialize_data}
use raydium_amm.Prelude.{
  ℕ, ◌==◌, ◌&&◌, ◌≡◌, Outcome, ok, Ensures, true, ensures_value, bind-Ensures, arith, skip, always,
  List, of_ok, Ensures-map, subst, refl, sym, ==→eq,
}
use raydium_amm.Administration.Migrate.{
  check_settled, check_migrate, MigrateRuntime, MigrateAccounts, MigrateResult,
  process_migrate_to_openbook, enter_market, reopened, moved,
}
use raydium_amm.State.Amm

-- What stays: the vaults, the pool tokens and their number. What is set up again: the fees, and the
-- profit that the owner may still take, which is 0 from then on.
pub record IsKept (before after : AmmInfo) : Type 0 where
  pub vaults : (after.coin_vault ≡ before.coin_vault) × (after.pc_vault ≡ before.pc_vault)
  pub lp_mint : after.lp_mint ≡ before.lp_mint
  pub lp_amount : after.lp_amount ≡ before.lp_amount
  pub no_pnl : (after.state_data.need_take_pnl_coin ≡ 0) × (after.state_data.need_take_pnl_pc ≡ 0)
  pub fees_valid : IsValid after.fees
  pub waits : after.status ≡ 7

-- The new market and its program.
abbrev pub IsMoved : MigrateAccounts → AmmInfo → Type 0
IsMoved accounts after =
    (after.market ≡ accounts.new_market)
    × (after.market_program ≡ accounts.new_market_program)
    × (after.open_orders ≡ accounts.new_amm_open_orders.key)

-- The administrator has signed; the old order book holds nothing of the pool any more.
pub data IsMigrated (runtime : MigrateRuntime) (accounts : MigrateAccounts)
    : MigrateResult → Type 0 where
  migrated :
      {result : MigrateResult} (before : AmmInfo) (old : NewMarket) (book : OrderBook)
      → load_amm accounts.amm ≡ ok before
      → (accounts.admin_is_signer ≡ true) × (accounts.admin ≡ runtime.admin.amm_owner_id)
      → accounts.new_market_program ≡ runtime.creation.openbook_id
      → runtime.load_settled ≡ ok (old, book)
      → calc_exact_vault_in_serum book accounts.amm_open_orders ≡ ok (0, 0)
      → IsKept before result.amm
      → IsMoved accounts result.amm
      → IsMigrated runtime accounts result

moved_pool :
    (accounts : MigrateAccounts) (before : AmmInfo)
    (nonce open_time c p cl sys min_size wave pl recent epoch : ℕ)
    → let after =
        reopened
          (initial_pool (moved accounts before) nonce open_time c p cl sys min_size wave pl recent)
          epoch in
      IsKept before after × IsMoved accounts after
unfolding initial_pool raydium_amm.State.Fees.initialize initialize_data
    raydium_amm.State.Status.into_u64 reopened moved
moved_pool accounts before nonce open_time c p cl sys min_size wave pl recent epoch = (
  record {
    vaults = (refl, refl);
    lp_mint = refl;
    lp_amount = refl;
    no_pnl = (refl, refl);
    fees_valid = omega arith;
    waits = refl;
  },
  (refl, refl, refl),
)

nothing : (a b : ℕ) → (a == 0 && b == 0) ≡ true → (a ≡ 0) × (b ≡ 0)
nothing a b h = ground arith

settled_at : {a b : ℕ} {m : Outcome (ℕ × ℕ)} → a ≡ 0 → b ≡ 0 → m ≡ ok (a, b) → m ≡ ok (0, 0)
settled_at {b = b} {m = m} a_zero b_zero e =
    subst (λ (t : ℕ). m ≡ ok (0, t)) b_zero (subst (λ (t : ℕ). m ≡ ok (t, b)) a_zero e)

check_settled-empty :
    (book : OrderBook) (open_orders : ℕ)
    → Ensures
        (λ _. calc_exact_vault_in_serum book open_orders ≡ ok (0, 0))
        (check_settled book open_orders)
unfolding check_settled
check_settled-empty book open_orders = bind-Ensures _ _ (λ (pc, coin) e.
    passes (pc == 0 && coin == 0) AmmError.unknown_amm_error
      (λ h. let (pc_zero, coin_zero) = nothing pc coin h in settled_at pc_zero coin_zero e))

check_migrate-signed :
    (runtime : AdminRuntime) (accounts : MigrateAccounts) (amm : AmmInfo)
    → Ensures
        (λ _. (accounts.admin_is_signer ≡ true) × (accounts.admin ≡ runtime.amm_owner_id))
        (check_migrate runtime accounts amm)
unfolding check_migrate
check_migrate-signed runtime accounts amm = bind-Ensures _ _ (λ _ e.
    let (signer, admin) = signed_by accounts.admin_is_signer _ _ (ensured _ _ e) in
    always _ (signer, sym admin))

module _ ⦃uint : Uint⦄ where
  moved_fresh :
      (accounts : MigrateAccounts) (before : AmmInfo) (nonce open_time c p cl pl : ℕ)
      (epoch : Outcome ℕ) (now : ℕ)
      → Ensures
          (λ fresh. IsKept before (reopened fresh now) × IsMoved accounts (reopened fresh now))
          (Amm.initialize (moved accounts before) nonce open_time c p cl pl epoch)
  unfolding Amm.initialize
  moved_fresh accounts before nonce open_time c p cl pl epoch now = skip _ _ (λ sys.
      skip _ _ (λ min_size. skip _ _ (λ wave. skip _ _ (λ amount_wave. skip _ _ (λ pc_lot.
        skip _ _ (λ recent. of_ok (
          moved_pool accounts before nonce open_time c p cl sys min_size amount_wave pc_lot recent
            now)))))))

  enter_market-IsMoved :
      (runtime : MigrateRuntime) (accounts : MigrateAccounts) (old : NewMarket) (amm : AmmInfo)
      (target : TargetOrders) (pc coin : ℕ) (calls : List Call)
      → Ensures
          (λ result.
            (accounts.new_market_program ≡ runtime.creation.openbook_id)
            × IsKept amm result.amm
            × IsMoved accounts result.amm)
          (enter_market runtime accounts old amm target pc coin calls)
  unfolding enter_market
  enter_market-IsMoved runtime accounts old amm target pc coin calls = bind-Ensures _ _ (λ _ e_new.
      skip _ _ (λ after. skip _ _ (λ _. skip _ _ (λ created. bind-Ensures _ _ (λ fresh e_fresh.
        skip _ _ (λ target'. skip _ _ (λ now.
          let (kept, is_moved) =
            ensures_value
              {P = λ fresh. IsKept amm (reopened fresh now) × IsMoved accounts (reopened fresh now)}
              _ (moved_fresh accounts amm _ _ _ _ _ _ _ now) e_fresh in
          of_ok (==→eq _ _ (ensured _ _ e_new), kept, is_moved))))))))

  -- A migration that succeeds was signed by the owner that the build names and leads to a market of the
  -- order book's program that the build names; nothing of the pool was left in the old order book; the
  -- vaults and the number of pool tokens stay, the pool has the new market and waits for trading, its
  -- fees are valid ones, and the profit still to be taken is set to 0.
  pub process_migrate_to_openbook-IsMigrated :
      (runtime : MigrateRuntime) (accounts : MigrateAccounts) {result : MigrateResult}
      → process_migrate_to_openbook runtime accounts ≡ ok result
      → IsMigrated runtime accounts result
  unfolding process_migrate_to_openbook
  process_migrate_to_openbook-IsMigrated runtime accounts h =
      ensures_value {P = IsMigrated runtime accounts} _
        (bind-Ensures _ _ (λ before e_amm. bind-Ensures _ _ (λ u e_check. skip _ _ (λ target.
          skip _ _ (λ (pc, coin). skip _ _ (λ cancelled. bind-Ensures _ _ (λ (old, book) e_book.
            skip _ _ (λ _. bind-Ensures _ _ (λ u' e_settled.
              Ensures-map
                (λ result (e_new, kept, is_moved).
                  migrated before old book e_amm
                    (ensures_value
                      {P = λ _.
                        (accounts.admin_is_signer ≡ true)
                        × (accounts.admin ≡ runtime.admin.amm_owner_id)}
                      _ (check_migrate-signed runtime.admin accounts before) e_check)
                    e_new e_book
                    (ensures_value
                      {P = λ _. calc_exact_vault_in_serum book accounts.amm_open_orders ≡ ok (0, 0)}
                      _ (check_settled-empty book accounts.amm_open_orders) e_settled)
                    kept is_moved)
                (enter_market-IsMoved runtime accounts old before target pc coin _))))))))))
        h
