-- ===== src/Tests/Chain.antt =====
-- A chain with one pool: what the handlers of program/src/processor.rs are run on.
use solana_dex_amm.Result.{
  Result, bind-eq-ok, custom, err, insufficient_funds, invalid_coin_vault, ok, ok_injective, unwrap,
  ◌>>=◌,
}
use solana_dex_amm.Chain.{
  AccountInfo, Call, Chain, TokenAccount, burn, cancel_orders_by_client_order_ids, close_account,
  close_open_orders, init_open_orders, mint_to, new_order_v3, replace_order_by_client_id,
  settle_funds, transfer,
}
use solana_dex_amm.Serum.{OpenOrders}
use solana_dex_amm.Tests.Data.{orders, targets}
use solana_dex_amm.State.Target.{TargetOrders}
use solana_dex_amm.State.Amm.{AmmInfo}
use solana_dex_amm.Prelude.{
  Bool-cases, Option, [], arith, if◌then◌else◌, inl, inr, leb, leb→le, none, refl, some, subst,
  true, ℕ, ◌+◌, ◌-◌, ◌==◌, ◌∙◌, ◌≡◌, ◌≢◌, ◌≤◌,
}
use solana_dex_amm.Chain.Ledger.{IsTransferred, Ledger}

pub record World : Type 0 where
  pub stored_pool : AmmInfo
  pub stored_target : TargetOrders
  pub tokens : ℕ → Option TokenAccount

abbrev pub update : (ℕ → Option TokenAccount) → ℕ → TokenAccount → ℕ → Option TokenAccount
update tokens k t j = if j == k then some t else tokens j

-- what a transfer makes of two accounts
abbrev pub sent : World → (source destination amount : ℕ) → (from to : TokenAccount) → World
sent w source destination amount from to = record w {
  tokens =
      update (update w.tokens source (record from { amount = from.amount - amount })) destination
        (record to { amount = to.amount + amount });
}

-- a transfer between two accounts that exist
unfoldable pub send : World → (source destination amount : ℕ) → Result World
send w source destination amount = do
  from ← unwrap (w.tokens source)
  to ← unwrap (w.tokens destination)
  if leb amount from.amount
      then ok (sent w source destination amount from to)
      else err (custom insufficient_funds)

-- the market's coin vault
abbrev pub market_coin_vault_key : ℕ
market_coin_vault_key = 64

unfoldable pub run_call : World → Call → Result World
unfolding send
run_call w (transfer program source destination authority amount) = send w source destination amount
run_call w
      (settle_funds program market token_program open_orders owner coin_vault coin_wallet pc_vault
        pc_wallet referrer signer) =
    if coin_vault == market_coin_vault_key then ok w else err (custom invalid_coin_vault)
run_call w (burn _ _ _ _ _) = ok w
run_call w (mint_to _ _ _ _ _) = ok w
run_call w (close_account _ _ _ _) = ok w
run_call w (init_open_orders _ _ _ _) = ok w
run_call w (close_open_orders _ _ _ _ _) = ok w
run_call w (cancel_orders_by_client_order_ids _ _ _ _ _ _ _ _) = ok w
run_call w (new_order_v3 _ _ _ _ _ _ _ _ _ _ _ _ _ _ _) = ok w
run_call w (replace_order_by_client_id _ _ _ _ _ _ _ _ _ _ _ _ _ _ _) = ok w

-- the open orders of the pool in its market, without an order in the book
abbrev pub pool_orders : OpenOrders
pool_orders = record orders { market = 7; owner = 40 }

abbrev pub test_chain : Chain World
test_chain = record {
  amm_info = λ w key. if key == 30 then some w.stored_pool else none;
  target_orders = λ w key. if key == 9 then some w.stored_target else none;
  amm_config = λ w key.
      if key == 31
      then some (record {
        pnl_owner = 32;
        cancel_owner = 33;
        pending_1 = [];
        pending_2 = [];
        create_pool_fee = 0;
      })
      else none;
  token_account = λ w key. w.tokens key;
  mint = λ w key. some (record { supply = 1000000 });
  load_market = λ w account program allow_disabled.
      ok (record { coin_mint = 3; pc_mint = 4; coin_lot_size = 1; pc_lot_size = 1 });
  load_orders_mut = λ w market account authority program. ok pool_orders;
  load_orders = λ w account. ok pool_orders;
  load_bids = λ w market account. ok (λ key. none);
  load_asks = λ w market account. ok (λ key. none);
  load_event_queue = λ w market account. some [];
  create_program_address = λ w seeds program. some 40;
  unix_timestamp = λ w. ok 1700000000;
  config_address = λ program. 31;
  spl_token_id = 50;
  amm_owner_id = 10;
  amm_subscriber_id = 11;
  referrer_pc_wallet_id = 52;
  clock_id = 53;
  srm_token_id = 54;
  msrm_token_id = 55;
  openbook_program_id = 8;
  default_key = 0;
  invoke_signed = λ w call seeds. run_call w call;
}

unwrap-some : {A : Type 0} (o : Option A) {a : A} → unwrap o ≡ ok a → o ≡ some a
unwrap-some o e = ground arith

update_same :
    (tokens : ℕ → Option TokenAccount) (k : ℕ) (t : TokenAccount) → update tokens k t k ≡ some t
update_same tokens k t = ground arith

update_other :
    (tokens : ℕ → Option TokenAccount) (k j : ℕ) (t : TokenAccount)
    → j ≢ k
    → update tokens k t j ≡ tokens j
update_other tokens k j t n = ground arith

sent-IsTransferred :
    (w : World) (source destination amount : ℕ) (from to : TokenAccount)
    → w.tokens source ≡ some from
    → w.tokens destination ≡ some to
    → amount ≤ from.amount
    → source ≢ destination
    → IsTransferred ⦃c = test_chain⦄ source destination amount w
        (sent w source destination amount from to)
sent-IsTransferred w source destination amount from to read_from read_to enough apart =
    let taken = record from { amount = from.amount - amount } in
    let tokens = update w.tokens source taken in
    record {
      from = from;
      to = to;
      from_read = read_from;
      to_read = read_to;
      enough = enough;
      debited = update_other tokens destination source _ apart ∙ update_same w.tokens source taken;
      credited = update_same tokens destination _;
      others =
          λ k n m. update_other tokens destination k _ m ∙ update_other w.tokens source k taken n;
      orders_same = λ account. refl;
    }

send-IsTransferred :
    (w w' : World) (source destination amount : ℕ)
    → send w source destination amount ≡ ok w'
    → source ≢ destination
    → IsTransferred ⦃c = test_chain⦄ source destination amount w w'
unfolding send
send-IsTransferred w w' source destination amount e apart =
    let (from, read_from, e1) = bind-eq-ok (unwrap (w.tokens source)) _ e in
    let (to, read_to, e2) = bind-eq-ok (unwrap (w.tokens destination)) _ e1 in
    let found =
      sent-IsTransferred w source destination amount from to (unwrap-some _ read_from)
        (unwrap-some _ read_to) in
    elim (Bool-cases (leb amount from.amount)) [
      | inl enough ↦
          subst (λ x. IsTransferred ⦃c = test_chain⦄ source destination amount w x)
            (ok_injective (rw enough at e2)) (found (leb→le _ _ enough) apart)
      | inr short ↦ absurd (ground (arith, rw short at e2))
    ]

pub test_chain-Ledger : Ledger World ⦃c = test_chain⦄
unfolding run_call
test_chain-Ledger = record {
  transferred = λ program source destination authority amount seeds w w' e apart.
      send-IsTransferred w w' source destination amount e apart;
}

-- the target orders of the pool
abbrev pub targets_of : TargetOrders
targets_of = record targets { owner = 30 }

abbrev pub token : (mint amount : ℕ) → TokenAccount
token mint amount = record { mint = mint; owner = 40; amount = amount }

abbrev pub balances : (coin pc key : ℕ) → Option TokenAccount
balances coin pc key =
    if key == 1
    then some (token 3 coin)
    else if key == 2
    then some (token 4 pc)
    else if key == 21
    then some (token 3 0)
    else if key == 22
    then some (token 4 0)
    else none

-- an account of the token program, and any other
abbrev pub account : (key owner : ℕ) → AccountInfo
account key owner = record { key = key; owner = owner; is_signer = true; is_writable = true }
