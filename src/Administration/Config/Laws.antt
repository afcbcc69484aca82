-- ===== src/Administration/Config/Laws.antt =====
-- Who changes the configuration, and what.
use raydium_amm.Swap.Steps.{ensured, both_tests}
use raydium_amm.Liquidity.Deposit.Laws.{one_positive}
use raydium_amm.Instruction.Types.{ConfigArgs}
use raydium_amm.Administration.Accounts.{AdminRuntime}
use raydium_amm.Prelude.{
  Bool, ℕ, ◌&&◌, ◌==◌, Option, ◌≡◌, Ensures, if_Ensures, ok, true, some, arith, bind-Ensures, ◌<◌,
  false, ensures_value, of_ok, fail, unwrap-eq-ok, of_err, Ensures-map, ==→eq, sym,
}
use raydium_amm.Administration.Config.{
  update_config, given_owner, process_update_config, UpdateAccounts,
}
use raydium_amm.State.Loading.{AmmConfig, load_config}
use raydium_amm.Errors.{AmmError}

-- One field is changed, to a value that is given; an owner is never the default key.
pub data IsUpdated (before : AmmConfig) (args : ConfigArgs) : AmmConfig → Type 0 where
  new_pnl_owner :
      (key : ℕ)
      → args.param ≡ 0
      → args.owner ≡ some key
      → 0 < key
      → IsUpdated before args (record before { pnl_owner = key })
  new_cancel_owner :
      (key : ℕ)
      → args.param ≡ 1
      → args.owner ≡ some key
      → 0 < key
      → IsUpdated before args (record before { cancel_owner = key })
  new_fee :
      (fee : ℕ)
      → args.param ≡ 2
      → args.create_pool_fee ≡ some fee
      → IsUpdated before args (record before { create_pool_fee = fee })

given_key : (owner : Option ℕ) → Ensures (λ key. (owner ≡ some key) × (0 < key)) (given_owner owner)
unfolding given_owner
given_key owner = bind-Ensures _ _ (λ key e.
    bind-Ensures _ _
      (λ _ e_key. of_ok (unwrap-eq-ok owner e, one_positive key (ensured _ _ e_key))))

update_config-IsUpdated :
    (config : AmmConfig) (args : ConfigArgs)
    → Ensures (IsUpdated config args) (update_config config args)
unfolding update_config
update_config-IsUpdated config args =
    if_Ensures (args.param == 0) _ _
      (λ zero_param. bind-Ensures _ _ (λ key e.
        let (given, pos) =
          ensures_value {P = λ key. (args.owner ≡ some key) × (0 < key)} _ (given_key args.owner)
            e in
        of_ok (new_pnl_owner key (==→eq args.param 0 zero_param) given pos)))
      (λ _.
        if_Ensures (args.param == 1) _ _
          (λ one_param. bind-Ensures _ _ (λ key e.
            let (given, pos) =
              ensures_value {P = λ key. (args.owner ≡ some key) × (0 < key)} _
                (given_key args.owner) e in
            of_ok (new_cancel_owner key (==→eq args.param 1 one_param) given pos)))
          (λ _.
            if_Ensures (args.param == 2) _ (fail AmmError.invalid_input)
              (λ two_param. bind-Ensures _ _ (λ fee e.
                of_ok (
                  new_fee fee (==→eq args.param 2 two_param)
                    (unwrap-eq-ok args.create_pool_fee e))))
              (λ _. of_err)))

pub signed_by : (signer : Bool) (a b : ℕ) → (signer && a == b) ≡ true → (signer ≡ true) × (b ≡ a)
signed_by true a b h = ground arith
signed_by false a b h = cc

-- An update of the configuration that succeeds was signed by the owner that the build names, is on the
-- account at the address of the configuration, which the program owns, and changes exactly the field that
-- the parameter names, to the value given.
pub process_update_config-IsUpdated :
    (runtime : AdminRuntime) (accounts : UpdateAccounts) (args : ConfigArgs) {after : AmmConfig}
    → process_update_config runtime accounts args ≡ ok after
    → (before : AmmConfig) × (load_config accounts.amm_config ≡ ok before)
      × (accounts.admin_is_signer ≡ true)
      × (accounts.admin ≡ runtime.amm_owner_id)
      × (accounts.amm_config_key ≡ runtime.config_address)
      × (accounts.amm_config.owner_is_program ≡ true)
      × IsUpdated before args after
unfolding process_update_config
process_update_config-IsUpdated runtime accounts args {after} run =
    ensures_value
      {P = λ after.
        (before : AmmConfig) × (load_config accounts.amm_config ≡ ok before)
        × (accounts.admin_is_signer ≡ true)
        × (accounts.admin ≡ runtime.amm_owner_id)
        × (accounts.amm_config_key ≡ runtime.config_address)
        × (accounts.amm_config.owner_is_program ≡ true)
        × IsUpdated before args after}
      (process_update_config runtime accounts args)
      (bind-Ensures _ _ (λ _ e_signer. bind-Ensures _ _ (λ _ e_key.
        bind-Ensures _ _ (λ before e_before.
          let (signer, admin) =
            signed_by accounts.admin_is_signer runtime.amm_owner_id accounts.admin
              (ensured _ _ e_signer) in
          let (key, owned) = both_tests _ _ (ensured _ _ e_key) in
          Ensures-map
            (λ after updated.
              (before, e_before, signer, admin, sym (==→eq _ _ key), owned, updated))
            (update_config-IsUpdated before args)))))
      run
