-- ===== src/Initialization/Laws.antt =====
-- What a pool is when it has been created.
use raydium_amm.Initialization.Created.{AreCreated, create_accounts-AreCreated}
use raydium_amm.Swap.Accounts.{Call, Vault}
use raydium_amm.State.Loading.{AmmConfig, load_config}
use raydium_amm.State.Orders.{TargetOrders}
use raydium_amm.Liquidity.Deposit.Laws.{one_positive}
use raydium_amm.Swap.Steps.{multiplied, narrowed, ensured, passes, both_tests}
use raydium_amm.Prelude.Word
use raydium_amm.Instruction.Types.{InitializeInstruction2}
use raydium_amm.State.Amm.{AmmInfo}
use raydium_amm.Initialization.Create.{InitRuntime, VaultAccount, InitCall}
use raydium_amm.Prelude.{
  ℕ, unwrap, ◌*◌, ◌≡◌, ok_or, ok, Ensures, true, ◌≤◌, ◌+◌, skip, bind-Ensures, ◌^◌, ◌<◌, arith,
  refl, always, unwrap-eq-ok, ensures_value, of_ok, ◌∙◌, sym, List, ◌++◌, ◌∷◌, [], ==→eq,
}
use raydium_amm.Math.Decimal.{to_u64}
use raydium_amm.Initialization.Process.{
  check_vault, opened_pool, initial_liquidity, open_pool, InitAccounts, InitResult,
  process_initialize2, check_init_keys, fee_calls, deposit_init_calls,
}
use raydium_amm.Uint.{Uint}
use raydium_amm.Errors.{AmmError}

-- The pool tokens are the root of the product of the deposits, rounded down; one whole pool token of them
-- is not minted.
abbrev pub IsLiquidity : (pc coin lp_decimals : ℕ) → ℕ × ℕ → Type 0
IsLiquidity pc coin lp_decimals (liquidity, minted) =
    (liquidity * liquidity ≤ pc * coin)
    × (pc * coin < (liquidity + 1) * (liquidity + 1))
    × (minted + 10 ^ lp_decimals ≡ liquidity)

-- The vaults are the authority's and hold something; the pool counts the liquidity, has the vaults that
-- were filled, and waits for its opening time or can be swapped with.
pub record IsOpened (runtime : InitRuntime) (accounts : InitAccounts) (open_time : ℕ)
    (amm : AmmInfo) (minted : ℕ) : Type 0 where
  pub coin_vault : VaultAccount
  pub pc_vault : VaultAccount
  pub lp_decimals : ℕ
  pub now : ℕ
  pub coin_unpacked : runtime.unpack_vault accounts.coin_vault.key ≡ ok coin_vault
  pub pc_unpacked : runtime.unpack_vault accounts.pc_vault.key ≡ ok pc_vault
  pub coin_owner : coin_vault.owner ≡ accounts.amm_authority
  pub pc_owner : pc_vault.owner ≡ accounts.amm_authority
  pub coin_pos : 0 < coin_vault.amount
  pub pc_pos : 0 < pc_vault.amount
  pub liquidity : IsLiquidity pc_vault.amount coin_vault.amount lp_decimals (amm.lp_amount, minted)
  pub vaults : (amm.coin_vault ≡ accounts.coin_vault.key) × (amm.pc_vault ≡ accounts.pc_vault.key)
  pub clock : runtime.unix_timestamp ≡ ok now
  pub status : (now < open_time → amm.status ≡ 7) × (open_time ≤ now → amm.status ≡ 6)

-- The fee is paid and made usable where there is one.
abbrev pub IsFee : AmmConfig → List InitCall → Type 0
IsFee config calls =
    (config.create_pool_fee ≡ 0 → calls ≡ [])
    × (0 < config.create_pool_fee
        → calls ≡ InitCall.pay_fee config.create_pool_fee ∷ InitCall.sync_native ∷ [])

-- The user has signed; the configuration stands at its address, and the fee goes to the account that the
-- build names.
abbrev pub IsAuthorized : InitRuntime → InitAccounts → Type 0
IsAuthorized runtime accounts =
    (accounts.user_wallet_is_signer ≡ true)
    × (accounts.amm_config_key ≡ runtime.config_address)
    × (accounts.create_fee_destination ≡ runtime.create_pool_fee_address)

-- An instruction that succeeds pays the fee of the configuration, creates the accounts, deposits the two
-- amounts that it names, each into its vault, and mints the pool tokens of the opened pool last.
pub data IsInitialized (runtime : InitRuntime) (accounts : InitAccounts)
    (init : InitializeInstruction2) : InitResult → Type 0 where
  initialized :
      {amm : AmmInfo} {target : TargetOrders} {config : AmmConfig} {minted lp_decimals : ℕ}
      (fee created : List InitCall)
      → load_config accounts.amm_config ≡ ok config
      → IsAuthorized runtime accounts
      → runtime.mint_decimals accounts.coin_mint ≡ ok lp_decimals
      → IsFee config fee
      → AreCreated runtime accounts lp_decimals created
      → IsOpened runtime accounts init.open_time amm minted
      → IsInitialized runtime accounts init (record {
        amm = amm;
        target_orders = target;
        calls =
            fee
            ++ created
            ++ (InitCall.init_open_orders
                ∷ InitCall.create_user_lp
                ∷ InitCall.token_call (Call.deposit_to Vault.coin_vault init.init_coin_amount)
                ∷ InitCall.token_call (Call.deposit_to Vault.pc_vault init.init_pc_amount)
                ∷ [])
            ++ (InitCall.token_call (Call.mint_lp minted) ∷ []);
      })

fits64 : (n : ℕ) {m : ℕ} → to_u64 n ≡ ok m → m ≡ n
unfolding to_u64
fits64 n h = ground arith

power : (n : ℕ) {m : ℕ} → unwrap (Word.checked_pow 64 10 n) ≡ ok m → m ≡ 10 ^ n
power n h = (Word.fit-eq-some 64 (10 ^ n) _ (unwrap-eq-ok _ h)).1

locked : (a b : ℕ) (e : AmmError) {n : ℕ} → ok_or (Word.checked_sub a b) e ≡ ok n → n + b ≡ a
locked a b e h = ground arith

check_vault-IsVault :
    (vault : VaultAccount) (authority mint : ℕ) (e : AmmError)
    → Ensures
        (λ _. (vault.owner ≡ authority) × (0 < vault.amount))
        (check_vault vault authority mint e)
unfolding check_vault
check_vault-IsVault vault authority mint e = bind-Ensures _ _ (λ _ e_owner.
    bind-Ensures _ _ (λ _ e_amount. bind-Ensures _ _ (λ _ _. bind-Ensures _ _ (λ _ _. always _ (
      ==→eq vault.owner authority (ensured _ _ e_owner),
      one_positive vault.amount (ensured _ _ e_amount),
    )))))

-- The status by the clock.
opened_status :
    (runtime : InitRuntime) (accounts : InitAccounts) (amm : AmmInfo) (liquidity open_time now : ℕ)
    → (now < open_time → (opened_pool runtime accounts amm liquidity open_time now).status ≡ 7)
      × (open_time ≤ now → (opened_pool runtime accounts amm liquidity open_time now).status ≡ 6)
unfolding opened_pool raydium_amm.State.Status.into_u64
opened_status runtime accounts amm liquidity open_time now =
    (λ lt. ground arith, λ le. ground arith)

kept_vaults :
    (runtime : InitRuntime) (accounts : InitAccounts) (amm : AmmInfo) (liquidity open_time now : ℕ)
    → ((opened_pool runtime accounts amm liquidity open_time now).coin_vault
        ≡ accounts.coin_vault.key)
      × ((opened_pool runtime accounts amm liquidity open_time now).pc_vault
          ≡ accounts.pc_vault.key)
unfolding opened_pool
kept_vaults runtime accounts amm liquidity open_time now = (refl, refl)

counted :
    (runtime : InitRuntime) (accounts : InitAccounts) (amm : AmmInfo) (liquidity open_time now : ℕ)
    (P : ℕ → Type 0)
    → P liquidity
    → P ((opened_pool runtime accounts amm liquidity open_time now).lp_amount)
unfolding opened_pool
counted runtime accounts amm liquidity open_time now P h = h

module _ ⦃uint : Uint⦄ where
  initial_liquidity-IsLiquidity :
      (pc coin lp_decimals : ℕ)
      → Ensures (IsLiquidity pc coin lp_decimals) (initial_liquidity pc coin lp_decimals)
  unfolding initial_liquidity
  initial_liquidity-IsLiquidity pc coin lp_decimals = bind-Ensures _ _ (λ product e_product.
      bind-Ensures _ _ (λ root e_root. bind-Ensures _ _ (λ liquidity e_liquidity.
        bind-Ensures _ _ (λ kept e_kept. bind-Ensures _ _ (λ minted e_minted.
          let (low, high) = uint.sqrt_law 128 product in
          let same_product = multiplied pc coin e_product in
          let same_root = narrowed 128 (uint.integer_sqrt 128 product) e_root in
          let same = fits64 root e_liquidity in
          let all_same : liquidity ≡ uint.integer_sqrt 128 product = same ∙ same_root in
          let one_token = power lp_decimals e_kept in
          let sum = locked liquidity kept AmmError.init_lp_amount_too_less e_minted in
          of_ok (
            rw all_same (rw (sym same_product) low),
            rw all_same (rw (sym same_product) high),
            rw (sym one_token) sum,
          ))))))

  -- A pool that is opened has vaults that belong to its authority and are not empty; it counts the root of
  -- their product as pool tokens (`IsLiquidity`), and its status follows from the clock (`IsOpened`).
  pub open_pool-IsOpened :
      (runtime : InitRuntime) (accounts : InitAccounts) (init : InitializeInstruction2)
      (coin_decimals pc_decimals : ℕ)
      → Ensures
          (λ (amm, target, minted). IsOpened runtime accounts init.open_time amm minted)
          (open_pool runtime accounts init coin_decimals pc_decimals)
  unfolding open_pool
  open_pool-IsOpened runtime accounts init coin_decimals pc_decimals = skip _ _ (λ empty.
      skip _ _ (λ _. bind-Ensures _ _ (λ coin_vault e_coin. bind-Ensures _ _ (λ u e_coin_check.
        bind-Ensures _ _ (λ pc_vault e_pc. bind-Ensures _ _ (λ u' e_pc_check. skip _ _ (λ market.
          skip _ _ (λ _. skip _ _ (λ lp_mint. skip _ _ (λ _.
            bind-Ensures _ _ (λ (liquidity, minted) e_liquidity. skip _ _ (λ amm.
              skip _ _ (λ target. bind-Ensures _ _ (λ now e_now.
                let (coin_owner, coin_pos) =
                  ensures_value
                    {P = λ _. (coin_vault.owner ≡ accounts.amm_authority) × (0 < coin_vault.amount)}
                    _
                    (check_vault-IsVault coin_vault accounts.amm_authority accounts.coin_mint
                      AmmError.invalid_coin_mint)
                    e_coin_check in
                let (pc_owner, pc_pos) =
                  ensures_value
                    {P = λ _. (pc_vault.owner ≡ accounts.amm_authority) × (0 < pc_vault.amount)} _
                    (check_vault-IsVault pc_vault accounts.amm_authority accounts.pc_mint
                      AmmError.invalid_pc_mint)
                    e_pc_check in
                of_ok (record {
                  coin_vault = coin_vault;
                  pc_vault = pc_vault;
                  lp_decimals = lp_mint.decimals;
                  now = now;
                  coin_unpacked = e_coin;
                  pc_unpacked = e_pc;
                  coin_owner = coin_owner;
                  pc_owner = pc_owner;
                  coin_pos = coin_pos;
                  pc_pos = pc_pos;
                  liquidity =
                      counted runtime accounts amm liquidity init.open_time now
                        (λ l.
                          IsLiquidity pc_vault.amount coin_vault.amount lp_mint.decimals
                            (l, minted))
                        (ensures_value
                          {P = IsLiquidity pc_vault.amount coin_vault.amount lp_mint.decimals} _
                          (initial_liquidity-IsLiquidity pc_vault.amount coin_vault.amount
                            lp_mint.decimals)
                          e_liquidity);
                  vaults = kept_vaults runtime accounts amm liquidity init.open_time now;
                  clock = e_now;
                  status = opened_status runtime accounts amm liquidity init.open_time now;
                })))))))))))))))

  check_init_keys-IsAuthorized :
      (runtime : InitRuntime) (accounts : InitAccounts) (init : InitializeInstruction2)
      → Ensures (λ _. IsAuthorized runtime accounts) (check_init_keys runtime accounts init)
  unfolding check_init_keys
  check_init_keys-IsAuthorized runtime accounts init = bind-Ensures _ _ (λ _ e_config.
      bind-Ensures _ _ (λ _ e_signer. skip _ _ (λ _. skip _ _ (λ _. skip _ _ (λ _. skip _ _ (λ _.
        skip _ _ (λ _. passes _ AmmError.invalid_fee (λ e_fee. (
          ensured accounts.user_wallet_is_signer _ e_signer,
          sym (==→eq _ _ (both_tests _ _ (ensured _ _ e_config)).0),
          ==→eq _ _ e_fee,
        )))))))))

  fee_calls-IsFee : (config : AmmConfig) → IsFee config (fee_calls config)
  unfolding fee_calls
  fee_calls-IsFee config = (λ h. ground arith, λ h. ground arith)

  -- `process_initialize2`, where it succeeds, is signed by the user and is on the account at the address of
  -- the configuration; its calls pay the fee that the configuration names, if there is one, to the account
  -- that the build names, create the six accounts, each at its derived address, with the rent and for its
  -- owner (`AreCreated`), deposit the coin amount of the instruction into the coin vault and its pc amount
  -- into the pc vault, and then mint the pool tokens of a pool that is opened as `IsOpened` says.
  pub process_initialize2-IsInitialized :
      (runtime : InitRuntime) (accounts : InitAccounts) (init : InitializeInstruction2)
      {result : InitResult}
      → process_initialize2 runtime accounts init ≡ ok result
      → IsInitialized runtime accounts init result
  unfolding process_initialize2 deposit_init_calls
  process_initialize2-IsInitialized runtime accounts init h =
      ensures_value {P = IsInitialized runtime accounts init} _
        (bind-Ensures _ _ (λ u e_keys. bind-Ensures _ _ (λ config e_config.
          bind-Ensures _ _ (λ coin_decimals e_decimals. skip _ _ (λ pc_decimals.
            bind-Ensures _ _ (λ created e_created. bind-Ensures _ _ (λ (amm, target, minted) e_open.
              of_ok (
                initialized (fee_calls config) created e_config
                  (ensures_value {P = λ _. IsAuthorized runtime accounts} _
                    (check_init_keys-IsAuthorized runtime accounts init) e_keys)
                  e_decimals (fee_calls-IsFee config)
                  (ensures_value {P = AreCreated runtime accounts coin_decimals} _
                    (create_accounts-AreCreated runtime accounts coin_decimals) e_created)
                  (ensures_value
                    {P = λ (amm, target, minted).
                      IsOpened runtime accounts init.open_time amm minted}
                    _ (open_pool-IsOpened runtime accounts init coin_decimals pc_decimals)
                    e_open)))))))))
        h
