-- ===== src/Swap/Flow.antt =====
-- What the events of the order book's queue do to what it holds for the pool.
-- An event that the totals of the open orders account do not contain yet: an order of the pool's account
-- that stood in the book and was filled, with what was paid and received for it.
use raydium_amm.Prelude.Word
use raydium_amm.Swap.Accounts.{Event, OrderBook, Side}
use raydium_amm.Swap.Prepare.{apply_event, calc_exact_vault_in_serum, apply_events}
use raydium_amm.Prelude.{
  ℕ, unwrap, List, ◌+◌, true, ◌∷◌, Ensures, [], Bool, ◌≡◌, ◌==◌, if_Ensures, ◌≢◌, ok, of_ok, arith,
  ◌&&◌, false, bind-Ensures, subst, ensures_value, Ensures-map, refl,
}

pub data IsFilled (owner : ℕ) : Event → Side → (paid received : ℕ) → Type 0 where
  filled :
      {side : Side} {paid received : ℕ}
      → IsFilled owner (Event.fill owner side true paid received) side paid received

-- Any other event: of another account, of an order that was taken at once, or of another kind.
pub data IsForeign (owner : ℕ) : Event → Type 0 where
  of_other :
      {event_owner : ℕ} {side : Side} {maker : Bool} {paid received : ℕ}
      → event_owner ≢ owner
      → IsForeign owner (Event.fill event_owner side maker paid received)
  as_taker :
      {event_owner : ℕ} {side : Side} {paid received : ℕ}
      → IsForeign owner (Event.fill event_owner side false paid received)
  not_fill : IsForeign owner Event.other

-- What the pool has spent and earned of both tokens in the events of a queue: its bids pay in pc and
-- receive coin, its asks pay in coin and receive pc.
pub record Flow : Type 0 where
  pub pc_spent : ℕ
  pub pc_earned : ℕ
  pub coin_spent : ℕ
  pub coin_earned : ℕ

pub data IsFlow (owner : ℕ) : List Event → Flow → Type 0 where
  no_event :
      IsFlow owner [] (record { pc_spent = 0; pc_earned = 0; coin_spent = 0; coin_earned = 0 })
  foreign :
      {event : Event} {events : List Event} {flow : Flow}
      → IsForeign owner event
      → IsFlow owner events flow
      → IsFlow owner (event ∷ events) flow
  bought :
      {event : Event} {events : List Event} {flow : Flow} {paid received : ℕ}
      → IsFilled owner event Side.bid paid received
      → IsFlow owner events flow
      → IsFlow owner (event ∷ events) (record flow {
        pc_spent = paid + flow.pc_spent;
        coin_earned = received + flow.coin_earned;
      })
  sold :
      {event : Event} {events : List Event} {flow : Flow} {paid received : ℕ}
      → IsFilled owner event Side.ask paid received
      → IsFlow owner events flow
      → IsFlow owner (event ∷ events) (record flow {
        coin_spent = paid + flow.coin_spent;
        pc_earned = received + flow.pc_earned;
      })

-- What is held, from what it was before the events.
abbrev pub Flows : Flow → ℕ × ℕ → ℕ × ℕ → Type 0
Flows flow (pc, coin) (pc', coin') =
    (pc' + flow.pc_spent ≡ pc + flow.pc_earned)
    × (coin' + flow.coin_spent ≡ coin + flow.coin_earned)

taken_off : (a b : ℕ) {n : ℕ} → unwrap (Word.checked_sub a b) ≡ ok n → n + b ≡ a
taken_off a b h = ground arith

put_on : (a b : ℕ) {n : ℕ} → unwrap (Word.checked_add 64 a b) ≡ ok n → n ≡ a + b
put_on a b h = ground arith

-- What `calc_exact_vault_in_serum` gives, by the trades in the queue.
abbrev pub HasFlow : ℕ → OrderBook → ℕ × ℕ → Type 0
HasFlow owner book held =
    (flow : Flow) × IsFlow owner book.events flow
    × Flows flow (book.native_pc_total, book.native_coin_total) held

fill-IsFilled :
    (event_owner owner : ℕ) (side : Side) (maker : Bool) (paid received : ℕ)
    → (event_owner == owner && maker) ≡ true
    → IsFilled owner (Event.fill event_owner side maker paid received) side paid received
fill-IsFilled event_owner owner side true paid received h =
    let same : owner ≡ event_owner = ground arith in
    subst (λ o. IsFilled owner (Event.fill o side true paid received) side paid received) same
      filled
fill-IsFilled event_owner owner side false paid received h =
    absurd (not_both (event_owner == owner) h)
  where
    not_both : (b : Bool) → (b && false) ≡ true → ⊥
    not_both true h = cc
    not_both false h = cc

fill-IsForeign :
    (event_owner owner : ℕ) (side : Side) (maker : Bool) (paid received : ℕ)
    → (event_owner == owner && maker) ≡ false
    → IsForeign owner (Event.fill event_owner side maker paid received)
fill-IsForeign event_owner owner side true paid received h = of_other (λ e. ground arith)
fill-IsForeign event_owner owner side false paid received h = as_taker

-- One event before others whose flow is known.
abbrev Precedes : ℕ → ℕ × ℕ → Event → ℕ × ℕ → Type 0
Precedes owner before event after =
    (events : List Event) (flow : Flow) (held : ℕ × ℕ)
    → IsFlow owner events flow
    → Flows flow after held
    → (flow' : Flow) × IsFlow owner (event ∷ events) flow' × Flows flow' before held

apply_event-Precedes :
    (owner : ℕ) (before : ℕ × ℕ) (event : Event)
    → Ensures (Precedes owner before event) (apply_event owner before event)
unfolding apply_event
apply_event-Precedes owner (pc, coin) (Event.fill event_owner Side.bid maker paid received) =
    if_Ensures (event_owner == owner && maker) _ _
      (λ own. bind-Ensures _ _ (λ pc' e_pc. bind-Ensures _ _ (λ coin' e_coin.
        let pc_eq = taken_off pc paid e_pc in
        let coin_eq = put_on coin received e_coin in
        of_ok (λ events flow held is_flow (pc_flow, coin_flow). (
          _,
          bought (fill-IsFilled event_owner owner Side.bid maker paid received own) is_flow,
          (omega arith, omega arith),
        )))))
      (λ foreign_fill. of_ok (λ events flow held is_flow flows. (
        flow,
        foreign (fill-IsForeign event_owner owner Side.bid maker paid received foreign_fill)
            is_flow,
        flows,
      )))
apply_event-Precedes owner (pc, coin) (Event.fill event_owner Side.ask maker paid received) =
    if_Ensures (event_owner == owner && maker) _ _
      (λ own. bind-Ensures _ _ (λ coin' e_coin. bind-Ensures _ _ (λ pc' e_pc.
        let coin_eq = taken_off coin paid e_coin in
        let pc_eq = put_on pc received e_pc in
        of_ok (λ events flow held is_flow (pc_flow, coin_flow). (
          _,
          sold (fill-IsFilled event_owner owner Side.ask maker paid received own) is_flow,
          (omega arith, omega arith),
        )))))
      (λ foreign_fill. of_ok (λ events flow held is_flow flows. (
        flow,
        foreign (fill-IsForeign event_owner owner Side.ask maker paid received foreign_fill)
            is_flow,
        flows,
      )))
apply_event-Precedes owner before Event.other =
    of_ok (λ events flow held is_flow flows. (flow, foreign not_fill is_flow, flows))

apply_events-flow :
    (owner : ℕ) (before : ℕ × ℕ) (events : List Event)
    → Ensures
        (λ held. (flow : Flow) × IsFlow owner events flow × Flows flow before held)
        (apply_events owner before events)
unfolding apply_events
apply_events-flow owner before [] = of_ok (_, no_event, (refl, refl))
apply_events-flow owner before (event ∷ events) = bind-Ensures _ _ (λ after e.
    let step =
      ensures_value {P = Precedes owner before event} _ (apply_event-Precedes owner before event)
        e in
    Ensures-map (λ held (flow, is_flow, flows). step events flow held is_flow flows)
      (apply_events-flow owner after events))

pub calc_exact_vault_in_serum-HasFlow :
    (book : OrderBook) (owner : ℕ)
    → Ensures (HasFlow owner book) (calc_exact_vault_in_serum book owner)
unfolding calc_exact_vault_in_serum
calc_exact_vault_in_serum-HasFlow book owner =
    apply_events-flow owner (book.native_pc_total, book.native_coin_total) book.events
