-- ===== src/Initialization/Created.antt =====
-- Which calls create the accounts of a pool, and when they can.
-- The account stands at its derived address and still belongs to the system program. It gets what it lacks
-- of the rent, which is at least 1, in one transfer or, if it lacks nothing, in none; it is then allocated
-- in its size and given to its owner.
use raydium_amm.Swap.Steps.{ensured}
use raydium_amm.Errors.{AmmError}
use raydium_amm.Prelude.{
  ℕ, List, Ensures, ◌≡◌, ◌++◌, ok, bind-Ensures, ◌∷◌, ensures_value, ◌<◌, of_ok, if_Ensures, ◌+◌,
  sym, ◌==◌, [], if◌then◌else◌, ◌≤◌, fail, ltb, refl, ==→eq, Bool-cases, ◌-◌, of_err, inl, arith,
  inr,
}
use raydium_amm.Initialization.Process.{create_accounts, InitAccounts}
use raydium_amm.Initialization.Create.{
  generate_part, generate_amm_associated_spl_token, fund_part, generate_amm_associated_spl_mint,
  InitRuntime, generate_amm_associated_account, NewPart, NewAccount, InitCall,
}

pub data IsCreated (runtime : InitRuntime) (part : NewPart) (account : NewAccount) (owner : ℕ)
    : List InitCall → Type 0 where
  funded :
      (rent missing : ℕ)
      → runtime.associated_address part ≡ account.key
      → account.owner ≡ runtime.system_program_id
      → runtime.minimum_balance (runtime.size_of part) ≡ ok rent
      → 0 < missing
      → (0 < rent → missing + account.lamports ≡ rent)
      → (rent ≡ 0 → missing + account.lamports ≡ 1)
      → IsCreated runtime part account owner (
          InitCall.transfer_lamports part missing
          ∷ InitCall.allocate_part part (runtime.size_of part)
          ∷ InitCall.assign_part part owner
          ∷ [])
  has_rent :
      (rent : ℕ)
      → runtime.associated_address part ≡ account.key
      → account.owner ≡ runtime.system_program_id
      → runtime.minimum_balance (runtime.size_of part) ≡ ok rent
      → rent ≤ account.lamports
      → 0 < account.lamports
      → IsCreated runtime part account owner (
          InitCall.allocate_part part (runtime.size_of part) ∷ InitCall.assign_part part owner ∷ [])

-- All six accounts in their order: the plan, the mint of the pool tokens, the vaults, the pool and its
-- account in the order book.
pub record AreCreated (runtime : InitRuntime) (accounts : InitAccounts) (lp_decimals : ℕ)
    (calls : List InitCall) : Type 0 where
  pub target : List InitCall
  pub lp : List InitCall
  pub coin : List InitCall
  pub pc : List InitCall
  pub amm : List InitCall
  pub orders : List InitCall
  pub target_created :
      IsCreated runtime NewPart.new_target_orders accounts.target_orders runtime.program_id target
  pub lp_created : IsCreated runtime NewPart.new_lp_mint accounts.lp_mint runtime.spl_token_id lp
  pub coin_created :
      IsCreated runtime NewPart.new_coin_vault accounts.coin_vault runtime.spl_token_id coin
  pub pc_created : IsCreated runtime NewPart.new_pc_vault accounts.pc_vault runtime.spl_token_id pc
  pub amm_created : IsCreated runtime NewPart.new_amm accounts.amm runtime.program_id amm
  pub orders_created :
      IsCreated runtime NewPart.new_open_orders accounts.open_orders accounts.market_program orders
  pub in_order :
      calls
      ≡ target
        ++ (lp ++ (InitCall.initialize_mint lp_decimals ∷ []))
        ++ (coin ++ (InitCall.initialize_account NewPart.new_coin_vault accounts.coin_mint ∷ []))
        ++ (pc ++ (InitCall.initialize_account NewPart.new_pc_vault accounts.pc_mint ∷ []))
        ++ amm
        ++ orders

-- What an account lacks is transferred.
fund_part-IsCreated :
    (runtime : InitRuntime) (part : NewPart) (account : NewAccount) (owner rent : ℕ)
    → runtime.associated_address part ≡ account.key
    → account.owner ≡ runtime.system_program_id
    → runtime.minimum_balance (runtime.size_of part) ≡ ok rent
    → IsCreated runtime part account owner (
        fund_part part rent account.lamports
        ++ (InitCall.allocate_part part (runtime.size_of part)
            ∷ InitCall.assign_part part owner
            ∷ []))
unfolding fund_part
fund_part-IsCreated runtime part account owner rent e_key e_owner e_rent =
    let needed = if ltb rent 1 then 1 else rent in
    elim (Bool-cases (ltb 0 (needed - account.lamports))) [
      | inl lacks ↦ rw lacks (
          funded rent (needed - account.lamports) e_key e_owner e_rent (ground arith)
            (λ pos. ground arith) (λ zero_rent. ground arith))
      | inr enough ↦ rw enough (has_rent rent e_key e_owner e_rent (ground arith) (ground arith))
    ]

generate_part-IsCreated :
    (runtime : InitRuntime) (part : NewPart) (account : NewAccount) (owner : ℕ) (e : AmmError)
    → Ensures (IsCreated runtime part account owner) (generate_part runtime part account owner e)
unfolding generate_part
generate_part-IsCreated runtime part account owner e = bind-Ensures _ _ (λ _ e_key.
    if_Ensures (account.owner == runtime.system_program_id) _ (fail AmmError.repeat_create_amm)
      (λ e_owner. bind-Ensures _ _ (λ rent e_rent. of_ok (
        fund_part-IsCreated runtime part account owner rent (==→eq _ _ (ensured _ _ e_key))
          (==→eq _ _ e_owner) e_rent)))
      (λ _. of_err))

account-IsCreated :
    (runtime : InitRuntime) (part : NewPart) (account : NewAccount) (owner : ℕ)
    → Ensures
        (IsCreated runtime part account owner)
        (generate_amm_associated_account runtime part account owner)
unfolding generate_amm_associated_account
account-IsCreated runtime part account owner =
    generate_part-IsCreated runtime part account owner AmmError.expected_account

-- A mint and a token account are initialised after their creation.
abbrev IsFollowed : InitRuntime → NewPart → NewAccount → InitCall → List InitCall → Type 0
IsFollowed runtime part account last calls =
    (created : List InitCall) × IsCreated runtime part account runtime.spl_token_id created
    × (calls ≡ created ++ (last ∷ []))

mint-IsFollowed :
    (runtime : InitRuntime) (part : NewPart) (account : NewAccount) (decimals : ℕ)
    → Ensures
        (IsFollowed runtime part account (InitCall.initialize_mint decimals))
        (generate_amm_associated_spl_mint runtime part account decimals)
unfolding generate_amm_associated_spl_mint
mint-IsFollowed runtime part account decimals = bind-Ensures _ _ (λ created e. of_ok (
  created,
  ensures_value {P = IsCreated runtime part account runtime.spl_token_id} _
      (generate_part-IsCreated runtime part account runtime.spl_token_id AmmError.expected_mint) e,
  refl,
))

token-IsFollowed :
    (runtime : InitRuntime) (part : NewPart) (account : NewAccount) (mint : ℕ)
    → Ensures
        (IsFollowed runtime part account (InitCall.initialize_account part mint))
        (generate_amm_associated_spl_token runtime part account mint)
unfolding generate_amm_associated_spl_token
token-IsFollowed runtime part account mint = bind-Ensures _ _ (λ created e. of_ok (
  created,
  ensures_value {P = IsCreated runtime part account runtime.spl_token_id} _
      (generate_part-IsCreated runtime part account runtime.spl_token_id AmmError.expected_account)
      e,
  refl,
))

pub create_accounts-AreCreated :
    (runtime : InitRuntime) (accounts : InitAccounts) (lp_decimals : ℕ)
    → Ensures
        (AreCreated runtime accounts lp_decimals)
        (create_accounts runtime accounts lp_decimals)
unfolding create_accounts
create_accounts-AreCreated runtime accounts lp_decimals = bind-Ensures _ _ (λ target e_target.
    bind-Ensures _ _ (λ lp e_lp. bind-Ensures _ _ (λ coin e_coin. bind-Ensures _ _ (λ pc e_pc.
      bind-Ensures _ _ (λ amm e_amm. bind-Ensures _ _ (λ orders e_orders.
        let (lp', lp_created, lp_same) =
          ensures_value {P = IsFollowed runtime _ accounts.lp_mint _} _
            (mint-IsFollowed runtime NewPart.new_lp_mint accounts.lp_mint lp_decimals) e_lp in
        let (coin', coin_created, coin_same) =
          ensures_value {P = IsFollowed runtime _ accounts.coin_vault _} _
            (token-IsFollowed runtime NewPart.new_coin_vault accounts.coin_vault accounts.coin_mint)
            e_coin in
        let (pc', pc_created, pc_same) =
          ensures_value {P = IsFollowed runtime _ accounts.pc_vault _} _
            (token-IsFollowed runtime NewPart.new_pc_vault accounts.pc_vault accounts.pc_mint)
            e_pc in
        of_ok (record {
          target = target;
          lp = lp';
          coin = coin';
          pc = pc';
          amm = amm;
          orders = orders;
          target_created =
              ensures_value {P = IsCreated runtime _ accounts.target_orders _} _
                (account-IsCreated runtime NewPart.new_target_orders accounts.target_orders
                  runtime.program_id)
                e_target;
          lp_created = lp_created;
          coin_created = coin_created;
          pc_created = pc_created;
          amm_created =
              ensures_value {P = IsCreated runtime _ accounts.amm _} _
                (account-IsCreated runtime NewPart.new_amm accounts.amm runtime.program_id) e_amm;
          orders_created =
              ensures_value {P = IsCreated runtime _ accounts.open_orders _} _
                (account-IsCreated runtime NewPart.new_open_orders accounts.open_orders
                  accounts.market_program)
                e_orders;
          in_order = rw (sym lp_same) (rw (sym coin_same) (rw (sym pc_same) refl));
        })))))))
