-- ===== src/Instruction/RoundTrip/Settings.antt =====
-- `set_params` is read back, for each parameter.
use raydium_amm.Instruction.Canonical.{ParamsForm, RoundTrips}
use raydium_amm.Prelude.{
  ℕ, ◌≡◌, refl, sym, ap, List, some, to_le_bytes, from-to_le_bytes, from_le_bytes, subst, Outcome,
  ◌>>=◌, ok, ◌∷◌,
}
use raydium_amm.Prelude.Word.{IsWord}
use raydium_amm.State.Fees.{Fees, pack_into_slice}
use raydium_amm.State.Fees.Laws.{IsTyped, length-pack, fees_unpack-pack_all}
use raydium_amm.State.Orders.{LastOrderDistance}
use raydium_amm.State.Params
use raydium_amm.State.Params.{AmmParams}
use raydium_amm.Instruction.Types.{AmmInstruction, SetParamsInstruction}
use raydium_amm.Instruction.Unpack.{
  no_params, unpack, unpack_u64, unpack_pubkey, unpack_set_params, unpack_tag, unpack_u8,
}
use raydium_amm.Instruction.Pack.{pack, pack_set_params}

-- The bytes behind the number of a parameter, for one kind of parameter.
abbrev ParamsTrip : AmmParams → SetParamsInstruction → Type 0
ParamsTrip k p =
    (bytes : List ℕ) × (pack_set_params k p ≡ ok bytes)
    × (unpack_set_params k p.param bytes ≡ ok (AmmInstruction.set_params p))

module _ (param : ℕ) where
  key_trip :
      (key : ℕ)
      → IsWord 256 key
      → ParamsTrip AmmParams.amm_owner (record (no_params param) { new_pubkey = some key })
  unfolding pack_set_params unpack_set_params unpack_pubkey ◌>>=◌
  key_trip key h = (
    _,
    refl,
    λ i. ok (
        AmmInstruction.set_params
          (record (no_params param) { new_pubkey = some (from-to_le_bytes 32 key h i) })),
  )

  fees_trip :
      (f : Fees)
      → IsTyped f
      → ParamsTrip AmmParams.fees (record (no_params param) { fees = some f })
  unfolding pack_set_params unpack_set_params ◌>>=◌
  fees_trip f h = (pack_into_slice f, refl, rw (length-pack f) (rw (fees_unpack-pack_all f h)))

  distance_trip :
      (d : LastOrderDistance)
      → IsWord 64 d.last_order_numerator
      → IsWord 64 d.last_order_denominator
      → ParamsTrip AmmParams.last_order_distance
          (record (no_params param) { last_order_distance = some d })
  unfolding pack_set_params unpack_set_params unpack_u64 ◌>>=◌
  distance_trip d hn hd = (
    _,
    refl,
    λ i. ok (
        AmmInstruction.set_params (record (no_params param) {
          last_order_distance = some (record {
            last_order_numerator = from-to_le_bytes 8 d.last_order_numerator hn i;
            last_order_denominator = from-to_le_bytes 8 d.last_order_denominator hd i;
          });
        })),
  )

  abbrev value_params : ℕ → SetParamsInstruction
  value_params v = record (no_params param) { value = some v }

  value_read :
      (v : ℕ)
      → IsWord 64 v
      → ◌≡◌ {A = Outcome AmmInstruction}
          (ok (AmmInstruction.set_params (value_params (from_le_bytes (to_le_bytes 8 v)))))
          (ok (AmmInstruction.set_params (value_params v)))
  value_read v h =
      ap (λ (w : ℕ). ok (AmmInstruction.set_params (value_params w))) (from-to_le_bytes 8 v h)

pub params_trip : (k : AmmParams) (p : SetParamsInstruction) → ParamsForm k p → ParamsTrip k p
unfolding pack_set_params unpack_set_params unpack_u64 ◌>>=◌
params_trip AmmParams.amm_owner p (key, h, e) =
    subst (ParamsTrip AmmParams.amm_owner) (sym e) (key_trip p.param key h)
params_trip AmmParams.fees p (f, h, e) =
    subst (ParamsTrip AmmParams.fees) (sym e) (fees_trip p.param f h)
params_trip AmmParams.last_order_distance p (d, hn, hd, e) =
    subst (ParamsTrip AmmParams.last_order_distance) (sym e) (distance_trip p.param d hn hd)
params_trip AmmParams.status p (v, h, e) =
    subst (ParamsTrip AmmParams.status) (sym e) (_, refl, value_read p.param v h)
params_trip AmmParams.state p (v, h, e) =
    subst (ParamsTrip AmmParams.state) (sym e) (_, refl, value_read p.param v h)
params_trip AmmParams.order_num p (v, h, e) =
    subst (ParamsTrip AmmParams.order_num) (sym e) (_, refl, value_read p.param v h)
params_trip AmmParams.depth p (v, h, e) =
    subst (ParamsTrip AmmParams.depth) (sym e) (_, refl, value_read p.param v h)
params_trip AmmParams.amount_wave p (v, h, e) =
    subst (ParamsTrip AmmParams.amount_wave) (sym e) (_, refl, value_read p.param v h)
params_trip AmmParams.min_price_multiplier p (v, h, e) =
    subst (ParamsTrip AmmParams.min_price_multiplier) (sym e) (_, refl, value_read p.param v h)
params_trip AmmParams.max_price_multiplier p (v, h, e) =
    subst (ParamsTrip AmmParams.max_price_multiplier) (sym e) (_, refl, value_read p.param v h)
params_trip AmmParams.min_size p (v, h, e) =
    subst (ParamsTrip AmmParams.min_size) (sym e) (_, refl, value_read p.param v h)
params_trip AmmParams.vol_max_cut_ratio p (v, h, e) =
    subst (ParamsTrip AmmParams.vol_max_cut_ratio) (sym e) (_, refl, value_read p.param v h)
params_trip AmmParams.set_open_time p (v, h, e) =
    subst (ParamsTrip AmmParams.set_open_time) (sym e) (_, refl, value_read p.param v h)
params_trip AmmParams.init_order_depth p (v, h, e) =
    subst (ParamsTrip AmmParams.init_order_depth) (sym e) (_, refl, value_read p.param v h)
params_trip AmmParams.set_switch_time p (v, h, e) =
    subst (ParamsTrip AmmParams.set_switch_time) (sym e) (_, refl, value_read p.param v h)
params_trip AmmParams.clear_open_time p (v, h, e) =
    subst (ParamsTrip AmmParams.clear_open_time) (sym e) (_, refl, value_read p.param v h)
params_trip AmmParams.seperate p (v, h, e) =
    subst (ParamsTrip AmmParams.seperate) (sym e) (_, refl, value_read p.param v h)
params_trip AmmParams.update_open_order p (v, h, e) =
    subst (ParamsTrip AmmParams.update_open_order) (sym e) (_, refl, value_read p.param v h)

pub set_params_trip :
    (p : SetParamsInstruction) (k : AmmParams)
    → Params.from_u64 p.param ≡ ok k
    → ParamsTrip k p
    → RoundTrips (AmmInstruction.set_params p)
unfolding pack unpack unpack_tag unpack_u8 ◌>>=◌
set_params_trip p k hk (bytes, packed, read) =
    (6 ∷ p.param ∷ bytes, rw hk (rw packed refl), rw hk read)
