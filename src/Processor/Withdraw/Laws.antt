-- ===== src/Processor/Withdraw/Laws.antt =====
-- What a withdrawal that is not refused pays out, and the lists of accounts that are refused.
use solana_dex_amm.Result.{Result, bind-eq-ok, err, not_enough_account_keys, ok, ◌>>=◌}
use solana_dex_amm.Chain.{AccountInfo, next_account_info}
use solana_dex_amm.Math.Exchange.{exchange_pool_to_token, floor}
use solana_dex_amm.Math.Exchange.Laws.{withdraw_keeps_share}
use solana_dex_amm.Processor.Withdraw.Amounts.{Withdrawn, check_lp, withdraw_amounts}
use solana_dex_amm.Processor.Withdraw.Accounts.{skip_padding, withdraw_accounts}
use solana_dex_amm.Words.{Uint}
use solana_dex_amm.Prelude.{
  List, [], arith, false, length, not, refl, true, ℕ, ◌&&◌, ◌*◌, ◌+◌, ◌-◌, ◌<◌, ◌==◌, ◌^◌, ◌||◌,
  ◌∷◌, ◌≡◌, ◌≤◌, ◌⊎◌,
}

-- The amounts of a withdrawal that no holder of the LP tokens that remain loses by.
pub record IsFairWithdrawal (amount lp_amount C P : ℕ) (m : Withdrawn) : Type 0 where
  pub lp_remains : amount < lp_amount
  pub coin_pos : 0 < m.coin_amount
  pub pc_pos : 0 < m.pc_amount
  pub coin_le : m.coin_amount ≤ C
  pub pc_le : m.pc_amount ≤ P
  pub coin_kept : C * (lp_amount - amount) ≤ (C - m.coin_amount) * lp_amount
  pub pc_kept : P * (lp_amount - amount) ≤ (P - m.pc_amount) * lp_amount

module _ ⦃u : Uint 128⦄ (amount user_lp supply lp_amount C P : ℕ) where
  -- A withdrawal that passes the checks of its LP tokens and whose amounts are not refused, on amounts of
  -- 64 bits: some LP tokens of the pool remain, something of both tokens is paid out, of each at most what
  -- the pool has, and no LP token that remains is worth less of either token.
  pub withdraw_amounts-IsFairWithdrawal :
      (m : Withdrawn)
      → lp_amount < 2 ^ 64
      → C < 2 ^ 64
      → P < 2 ^ 64
      → check_lp amount user_lp supply lp_amount ≡ ok tt
      → withdraw_amounts amount lp_amount C P ≡ ok m
      → IsFairWithdrawal amount lp_amount C P m
  unfolding check_lp withdraw_amounts
  withdraw_amounts-IsFairWithdrawal m hl hC hP checked e =
      let less : amount < lp_amount = ground arith in
      let (coin, e1, r1) =
        bind-eq-ok
          (exchange_pool_to_token (record { token_input = amount; token_total = lp_amount }) C
            floor)
          _ e in
      let (pc, e2, r2) =
        bind-eq-ok
          (exchange_pool_to_token (record { token_input = amount; token_total = lp_amount }) P
            floor)
          _ r1 in
      let fields : (m.coin_amount ≡ coin) × (m.pc_amount ≡ pc) × (0 < coin) × (0 < pc) =
        ground arith in
      let kept_c = withdraw_keeps_share amount lp_amount C (omega (arith, less)) hl hC e1 in
      let kept_p = withdraw_keeps_share amount lp_amount P (omega (arith, less)) hl hP e2 in
      record {
        lp_remains = less;
        coin_pos = rw fields.0 fields.2;
        pc_pos = rw fields.1 fields.3;
        coin_le = rw fields.0 kept_c.0;
        pc_le = rw fields.1 kept_p.0;
        coin_kept = rw fields.0 kept_c.1;
        pc_kept = rw fields.1 kept_p.1;
      }

-- A list that is too short for the accounts that are taken of it is refused.
next_short :
    {A : Type 0} (n : ℕ) (accounts : List AccountInfo)
    (next : AccountInfo × List AccountInfo → Result A)
    → length accounts < n + 1
    → ((account : AccountInfo) (rest : List AccountInfo)
        → length rest < n
        → next (account, rest) ≡ err not_enough_account_keys)
    → (next_account_info accounts >>= next) ≡ err not_enough_account_keys
unfolding next_account_info
next_short n [] next h more = refl
next_short n (account ∷ rest) next h more = more account rest (omega (arith, h))

padding_taken : (count : ℕ) → (not (count == 22) || not (count == 23)) ≡ true
padding_taken count = ground arith

padding_short :
    {A : Type 0} (n count : ℕ) (accounts : List AccountInfo) (next : List AccountInfo → Result A)
    → length accounts < n + 2
    → ((rest : List AccountInfo) → length rest < n → next rest ≡ err not_enough_account_keys)
    → (skip_padding count accounts >>= next) ≡ err not_enough_account_keys
unfolding skip_padding next_account_info
padding_short n count [] next h more = rw (padding_taken count) refl
padding_short n count (_ ∷ []) next h more = rw (padding_taken count) refl
padding_short n count (_ ∷ _ ∷ rest) next h more =
    rw (padding_taken count) (more rest (omega (arith, h)))

-- A list of 20 or of 21 accounts, the two counts that the check lets pass without accounts of padding, is
-- always refused as NotEnoughAccountKeys: the two accounts of padding are taken of every list.
pub withdraw_accounts-short :
    (accounts : List AccountInfo)
    → (length accounts ≡ 20) ⊎ (length accounts ≡ 21)
    → withdraw_accounts accounts ≡ err not_enough_account_keys
unfolding withdraw_accounts
withdraw_accounts-short accounts h =
    let passes : (not (length accounts == 20)
          && not (length accounts == 21)
          && not (length accounts == 22)
          && not (length accounts == 23))
        ≡ false =
      ground arith in
    rw passes (
      next_short 21 accounts _ (ground arith) λ _ s1 h1. next_short 20 s1 _ h1 λ _ s2 h2.
        next_short 19 s2 _ h2 λ _ s3 h3. next_short 18 s3 _ h3 λ _ s4 h4.
          next_short 17 s4 _ h4 λ _ s5 h5. next_short 16 s5 _ h5 λ _ s6 h6.
            next_short 15 s6 _ h6 λ _ s7 h7. next_short 14 s7 _ h7 λ _ s8 h8.
              padding_short 12 (length accounts) s8 _ h8 λ s10 h10.
                next_short 11 s10 _ h10 λ _ s11 h11. next_short 10 s11 _ h11 λ _ s12 h12.
                  next_short 9 s12 _ h12 λ _ s13 h13. next_short 8 s13 _ h13 λ _ s14 h14.
                    next_short 7 s14 _ h14 λ _ s15 h15. next_short 6 s15 _ h15 λ _ s16 h16.
                      next_short 5 s16 _ h16 λ _ s17 h17. next_short 4 s17 _ h17 λ _ s18 h18.
                        next_short 3 s18 _ h18 λ _ s19 h19. next_short 2 s19 _ h19 λ _ s20 h20.
                          next_short 1 s20 _ h20 λ _ s21 h21.
                            next_short 0 s21 _ h21 λ _ s22 h22. absurd (omega (arith, h22)))
