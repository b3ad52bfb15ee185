-- ===== src/Token/Operations/Supply.antt =====
-- The books of the token program (lez/programs/token/src): what each operation does to the
-- amounts that holdings stand for and to the supply of their definition.
use lssa.Prelude.{
  ℕ, ◌+◌, ◌-◌, ◌≡◌, ◌≤◌, ◌<◌, sym, ◌∙◌, ap, subst, true, some, List, [], ◌∷◌, arith, ◌==◌,
  if◌then◌else◌, ltb,
}
use lssa.Prelude.Options.{>>=-eq-some, some-injective, none-ne-some}
use lssa.Account.{
  Account, AccountId, AccountWithMetadata, account_eq, account_eq-eq, default_account, u128_mod,
}
use lssa.Program.{AccountPostState, Claim, post_state, claimed_post_state}
use lssa.Token.{
  TokenDefinition, TokenHolding, Codec, RoundTrips, zeroized_clone_from, zeroized_from_definition,
  definition_id,
}
use lssa.Token.Operations.{
  with_data, move_holding, burn_holding, mint_holding, print_copy, transfer, burn, mint, print_nft,
}
use lssa.Token.Operations.Amounts.{
  amount, supply, amount_in, amount_of, supply_in, move_holding-amount, burn_holding-amount,
  mint_holding-amount, assert->>, with_data-eq, data_at, recipient_amount, amount_in_known,
  supply_in_known, minted_amount,
}

module _ (codec : Codec) (borsh : RoundTrips codec) where
  open codec use {decode_definition, decode_holding}

  amount_in-with_data :
      (a r : Account) (h : TokenHolding)
      → with_data a (codec.encode_holding h) ≡ some r
      → amount_in codec r.data_bytes ≡ amount h
  amount_in-with_data a r h e =
      ground (arith, with_data-eq a (codec.encode_holding h) r e, borsh.holding_round_trip h)

  supply_in-with_data :
      (a r : Account) (d : TokenDefinition)
      → with_data a (codec.encode_definition d) ≡ some r
      → supply_in codec r.data_bytes ≡ supply d
  supply_in-with_data a r d e =
      ground (arith, with_data-eq a (codec.encode_definition d) r e, borsh.definition_round_trip d)

  -- Under the round trip of Borsh, a transfer that succeeds takes exactly the amount from the
  -- sender's holding and adds it to the recipient's, for each kind of token, and is authorised
  -- by the sender. An uninitialised recipient counts as 0.
  pub transfer_moves_amount :
      (sender recipient : AccountWithMetadata) (n : ℕ) (posts : List AccountPostState)
      → transfer codec sender recipient n ≡ some posts
      → (sender.is_authorized ≡ true)
        × (amount_in codec (data_at 0 posts) + n ≡ amount_in codec sender.account.data_bytes)
        × (amount_in codec (data_at 1 posts) ≡ amount_of codec recipient.account + n)
  unfolding transfer
  transfer_moves_amount sender recipient n posts e =
      let (authorized, e₁) = assert->> sender.is_authorized _ e in
      let (h, dh, e₂) = >>=-eq-some (decode_holding sender.account.data_bytes) _ e₁ in
      let (k, dk, e₃) =
        >>=-eq-some
          (if account_eq recipient.account default_account
            then some (zeroized_clone_from h)
            else decode_holding recipient.account.data_bytes)
          _ e₂ in
      let (_, e₄) = assert->> (definition_id h == definition_id k) _ e₃ in
      let (m, moved, e₅) = >>=-eq-some (move_holding h k n) _ e₄ in
      let (p, dp, e₆) = >>=-eq-some (with_data sender.account (codec.encode_holding m.0)) _ e₅ in
      let (q, dq, e₇) = >>=-eq-some (with_data recipient.account (codec.encode_holding m.1)) _ e₆ in
      let posts_are : _ ≡ posts = some-injective e₇ in
      let (taken, given) = move_holding-amount h k n m moved in
      (
        authorized,
        subst (λ ps. amount_in codec (data_at 0 ps) + n ≡ amount_in codec sender.account.data_bytes)
            posts_are
            (omega (
              arith,
              taken,
              amount_in_known codec sender.account.data_bytes h dh,
              amount_in-with_data sender.account p m.0 dp,
            )),
        subst (λ ps. amount_in codec (data_at 1 ps) ≡ amount_of codec recipient.account + n)
            posts_are
            (omega (
              arith,
              given,
              recipient_amount codec recipient.account h k dk,
              amount_in-with_data recipient.account q m.1 dq,
            )),
      )

  -- Under the round trip of Borsh, burning lowers the holding's amount and the definition's
  -- supply by the same number, and is authorised by the holder.
  pub burn_lowers_supply :
      (definition holder : AccountWithMetadata) (n : ℕ) (posts : List AccountPostState)
      → burn codec definition holder n ≡ some posts
      → (holder.is_authorized ≡ true)
        × (supply_in codec (data_at 0 posts) + n ≡ supply_in codec definition.account.data_bytes)
        × (amount_in codec (data_at 1 posts) + n ≡ amount_in codec holder.account.data_bytes)
  unfolding burn
  burn_lowers_supply definition holder n posts e =
      let (authorized, e₁) = assert->> holder.is_authorized _ e in
      let (d, dd, e₂) = >>=-eq-some (decode_definition definition.account.data_bytes) _ e₁ in
      let (h, dh, e₃) = >>=-eq-some (decode_holding holder.account.data_bytes) _ e₂ in
      let (_, e₄) = assert->> (definition.account_id == definition_id h) _ e₃ in
      let (m, burnt, e₅) = >>=-eq-some (burn_holding d h n) _ e₄ in
      let (p, dp, e₆) =
        >>=-eq-some (with_data definition.account (codec.encode_definition m.0)) _ e₅ in
      let (q, dq, e₇) = >>=-eq-some (with_data holder.account (codec.encode_holding m.1)) _ e₆ in
      let posts_are : _ ≡ posts = some-injective e₇ in
      let (lowered, taken) = burn_holding-amount d h n m burnt in
      (
        authorized,
        subst
            (λ ps.
              supply_in codec (data_at 0 ps) + n ≡ supply_in codec definition.account.data_bytes)
            posts_are
            (omega (
              arith,
              lowered,
              supply_in_known codec definition.account.data_bytes d dd,
              supply_in-with_data definition.account p m.0 dp,
            )),
        subst (λ ps. amount_in codec (data_at 1 ps) + n ≡ amount_in codec holder.account.data_bytes)
            posts_are
            (omega (
              arith,
              taken,
              amount_in_known codec holder.account.data_bytes h dh,
              amount_in-with_data holder.account q m.1 dq,
            )),
      )

  -- Under the round trip of Borsh, minting raises the supply and the holding's amount by the same number, keeps both below 2^128, and is authorised by
  -- the definition account. An uninitialised holder counts as 0.
  pub mint_raises_supply :
      (definition holder : AccountWithMetadata) (n : ℕ) (posts : List AccountPostState)
      → mint codec definition holder n ≡ some posts
      → (definition.is_authorized ≡ true)
        × (supply_in codec (data_at 0 posts) ≡ supply_in codec definition.account.data_bytes + n)
        × (amount_in codec (data_at 1 posts) ≡ amount_of codec holder.account + n)
        × (supply_in codec (data_at 0 posts) < u128_mod)
        × (amount_in codec (data_at 1 posts) < u128_mod)
  unfolding mint
  mint_raises_supply definition holder n posts e =
      let (authorized, e₁) = assert->> definition.is_authorized _ e in
      let (d, dd, e₂) = >>=-eq-some (decode_definition definition.account.data_bytes) _ e₁ in
      let (k, dk, e₃) =
        >>=-eq-some
          (if account_eq holder.account default_account
            then some (zeroized_from_definition definition.account_id d)
            else decode_holding holder.account.data_bytes)
          _ e₂ in
      let (_, e₄) = assert->> (definition.account_id == definition_id k) _ e₃ in
      let (m, minted, e₅) = >>=-eq-some (mint_holding d k n) _ e₄ in
      let (p, dp, e₆) =
        >>=-eq-some (with_data definition.account (codec.encode_definition m.0)) _ e₅ in
      let (q, dq, e₇) = >>=-eq-some (with_data holder.account (codec.encode_holding m.1)) _ e₆ in
      let (raised, given, supply_fits, amount_fits) = mint_holding-amount d k n m minted in
      let new_supply = supply_in-with_data definition.account p m.0 dp in
      let new_amount = amount_in-with_data holder.account q m.1 dq in
      subst
        (λ ps.
          (definition.is_authorized ≡ true)
          × (supply_in codec (data_at 0 ps) ≡ supply_in codec definition.account.data_bytes + n)
          × (amount_in codec (data_at 1 ps) ≡ amount_of codec holder.account + n)
          × (supply_in codec (data_at 0 ps) < u128_mod)
          × (amount_in codec (data_at 1 ps) < u128_mod))
        (some-injective e₇)
        (
          authorized,
          omega
              (arith, raised, supply_in_known codec definition.account.data_bytes d dd, new_supply),
          omega (
            arith,
            given,
            minted_amount codec holder.account definition.account_id d k dk,
            new_amount,
          ),
          omega (arith, supply_fits, new_supply),
          omega (arith, amount_fits, new_amount),
        )

  -- A copy is printed from a master holding that has one left for itself afterwards.
  print_copy_master :
      (h k : TokenHolding)
      → print_copy h ≡ some k
      → (id : AccountId) × (n : ℕ) × (h ≡ TokenHolding.nft_master id (n + 1))
        × (k ≡ TokenHolding.nft_master id n)
        × (1 ≤ n)
  unfolding print_copy
  print_copy_master (TokenHolding.nft_master id b) k e =
      let (more, e₁) = assert->> (ltb 1 b) _ e in
      (
        id,
        b - 1,
        ap (TokenHolding.nft_master id) (ground (arith, more)),
        ground (arith, more, e₁),
        ground (arith, more),
      )
  print_copy_master (TokenHolding.fungible id b) k e = absurd (none-ne-some e)
  print_copy_master (TokenHolding.nft_printed_copy id o) k e = absurd (none-ne-some e)

  written_holding :
      (a r : Account) (h : TokenHolding)
      → with_data a (codec.encode_holding h) ≡ some r
      → decode_holding r.data_bytes ≡ some h
  written_holding a r h e =
      ap (λ (x : Account). decode_holding x.data_bytes)
        (with_data-eq a (codec.encode_holding h) r e)
      ∙ borsh.holding_round_trip h

  -- Under the round trip of Borsh, printing is authorised by the master's holder. The master holding, of a
  -- definition and with a number of copies left, is one of the same definition with one copy fewer, and still has
  -- one; the second account, which was uninitialised, holds an owned printed copy of this definition and is
  -- claimed. There are no other post-states.
  pub print_nft_copies_one :
      (master printed : AccountWithMetadata) (posts : List AccountPostState)
      → print_nft codec master printed ≡ some posts
      → (master.is_authorized ≡ true)
        × (printed.account ≡ default_account)
        × (id : AccountId) × (n : ℕ) × (p : Account) × (q : Account) × (1 ≤ n)
        × (decode_holding master.account.data_bytes ≡ some (TokenHolding.nft_master id (n + 1)))
        × (decode_holding p.data_bytes ≡ some (TokenHolding.nft_master id n))
        × (decode_holding q.data_bytes ≡ some (TokenHolding.nft_printed_copy id true))
        × (posts ≡ post_state p ∷ claimed_post_state q Claim.authorized ∷ [])
  unfolding print_nft definition_id
  print_nft_copies_one master printed posts e =
      let (authorized, e₁) = assert->> master.is_authorized _ e in
      let (fresh, e₂) = assert->> (account_eq printed.account default_account) _ e₁ in
      let (h, dh, e₃) = >>=-eq-some (decode_holding master.account.data_bytes) _ e₂ in
      let (k, left, e₄) = >>=-eq-some (print_copy h) _ e₃ in
      let (p, dp, e₅) = >>=-eq-some (with_data master.account (codec.encode_holding k)) _ e₄ in
      let (q, dq, e₆) =
        >>=-eq-some
          (with_data printed.account
            (codec.encode_holding (TokenHolding.nft_printed_copy (definition_id h) true)))
          _ e₅ in
      let (id, n, was, is, some_left) = print_copy_master h k left in
      (
        authorized,
        account_eq-eq printed.account default_account fresh,
        id,
        n,
        p,
        q,
        some_left,
        dh ∙ ap some was,
        written_holding master.account p k dp ∙ ap some is,
        written_holding printed.account q _ dq
            ∙ ap (λ x. some (TokenHolding.nft_printed_copy (definition_id x) true)) was,
        sym (some-injective e₆),
      )
