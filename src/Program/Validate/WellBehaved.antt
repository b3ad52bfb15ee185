-- ===== src/Program/Validate/WellBehaved.antt =====
-- The specification of `validate_execution` (lee/state_machine/core/src/program/mod.rs), in terms
-- of the accounts before and after.
use lssa.Prelude.{
  ◌≤◌, ◌<◌, ◌≡◌, ◌≢◌, ◌⊎◌, refl, sym, ◌∙◌, ◌↔◌, true, List, [], ◌∷◌, ==_iff, arith, length,
  IsDistinct, length-to_set-IsDistinct, IsDistinct-length-to_set, All, list_eq-eq, list_eq_refl, ok,
  >>-eq-ok, ensure->>, ensure-eq-ok, ok_or-eq-ok, >>=-eq-ok, ok_or, ap, suc,
}
use lssa.Account.{
  Account, AccountId, AccountWithMetadata, default_account, account_eq-eq, account_eq_refl,
  u128_mod,
}
use lssa.Program.{AccountPostState, ProgramId, default_program_owner}
use lssa.Program.Ids.{to_account_id}
use lssa.Program.Balances.{
  from_balances, sum, IsU128, from_balances_value, from_balances_total, wrapped_eq-value,
  value-wrapped_eq, from_balances_parts,
}
use lssa.Program.Validate.{
  validate_execution, validate_pair, validate_pairs, validate_total, ids_of, pre_balances,
  post_balances, balance_sum_overflow, validate_uniqueness_of_account_ids,
}

-- What a program may do to one account.
pub record PairOk (executing : AccountId) (a b : Account) : Type 0 where
  pub same_nonce : b.nonce ≡ a.nonce
  pub same_owner : b.program_owner ≡ a.program_owner
  pub may_decrease : (a.balance ≤ b.balance) ⊎ (a.program_owner ≡ executing)
  pub may_write :
      (a.data_bytes ≡ b.data_bytes) ⊎ (a ≡ default_account) ⊎ (a.program_owner ≡ executing)
  pub may_be_unowned : (b.program_owner ≢ default_program_owner) ⊎ (a ≡ default_account)

abbrev pub PairsOk : AccountId → List AccountWithMetadata → List AccountPostState → Type 0
PairsOk executing [] [] = Unit {0}
PairsOk executing [] (post ∷ posts) = ⊥
PairsOk executing (pre ∷ pres) [] = ⊥
PairsOk executing (pre ∷ pres) (post ∷ posts) =
    PairOk executing pre.account post.account × PairsOk executing pres posts

pub PairsOk-length :
    (executing : AccountId) (pres : List AccountWithMetadata) (posts : List AccountPostState)
    → PairsOk executing pres posts
    → length pres ≡ length posts
PairsOk-length executing [] [] h = refl
PairsOk-length executing [] (post ∷ posts) h = absurd h
PairsOk-length executing (pre ∷ pres) [] h = absurd h
PairsOk-length executing (pre ∷ pres) (post ∷ posts) h =
    ap suc (PairsOk-length executing pres posts h.1)

-- What a program may do to its accounts together.
pub record WellBehaved (pid : ProgramId) (pres : List AccountWithMetadata)
    (posts : List AccountPostState) : Type 0 where
  pub distinct : IsDistinct (ids_of pres)
  pub pairs : PairsOk (to_account_id pid) pres posts
  pub conserved : sum (pre_balances pres) ≡ sum (post_balances posts)

length-ids_of : (pres : List AccountWithMetadata) → length (ids_of pres) ≡ length pres
length-ids_of [] = refl
length-ids_of (pre ∷ pres) = ap suc (length-ids_of pres)

length-pre_balances : (pres : List AccountWithMetadata) → length (pre_balances pres) ≡ length pres
length-pre_balances [] = refl
length-pre_balances (pre ∷ pres) = ap suc (length-pre_balances pres)

length-post_balances : (posts : List AccountPostState) → length (post_balances posts) ≡ length posts
length-post_balances [] = refl
length-post_balances (post ∷ posts) = ap suc (length-post_balances posts)

validate_pair-PairOk :
    (aid : AccountId) (pid : ProgramId) (pre : AccountWithMetadata) (post : AccountPostState)
    → validate_pair aid pid pre post ≡ ok tt
    → PairOk aid pre.account post.account
unfolding validate_pair
validate_pair-PairOk aid pid pre post h = record {
  same_nonce = ground arith;
  same_owner = ground arith;
  may_decrease = ground arith;
  may_write = ground (
    arith,
    list_eq-eq pre.account.data_bytes post.account.data_bytes,
    account_eq-eq pre.account default_account,
  );
  may_be_unowned = ground (arith, account_eq-eq pre.account default_account);
}

PairOk-validate_pair :
    (aid : AccountId) (pid : ProgramId) (pre : AccountWithMetadata) (post : AccountPostState)
    → PairOk aid pre.account post.account
    → validate_pair aid pid pre post ≡ ok tt
unfolding validate_pair
PairOk-validate_pair aid pid pre post h = ground (
  arith,
  h.same_nonce,
  h.same_owner,
  h.may_decrease,
  h.may_write,
  h.may_be_unowned,
  list_eq_refl pre.account.data_bytes,
  account_eq_refl pre.account,
)

validate_pairs-PairsOk :
    (aid : AccountId) (pid : ProgramId) (pres : List AccountWithMetadata)
    (posts : List AccountPostState)
    → length pres ≡ length posts
    → validate_pairs aid pid pres posts ≡ ok tt
    → PairsOk aid pres posts
unfolding validate_pairs
validate_pairs-PairsOk aid pid [] [] l h = tt
validate_pairs-PairsOk aid pid [] (post ∷ posts) l h = absurd (omega (arith, l))
validate_pairs-PairsOk aid pid (pre ∷ pres) [] l h = absurd (omega (arith, l))
validate_pairs-PairsOk aid pid (pre ∷ pres) (post ∷ posts) l h =
    let (first, rest) =
      >>-eq-ok (validate_pair aid pid pre post) (validate_pairs aid pid pres posts) h in
    (
      validate_pair-PairOk aid pid pre post first,
      validate_pairs-PairsOk aid pid pres posts (omega (arith, l)) rest,
    )

PairsOk-validate_pairs :
    (aid : AccountId) (pid : ProgramId) (pres : List AccountWithMetadata)
    (posts : List AccountPostState)
    → PairsOk aid pres posts
    → (length pres ≡ length posts) × (validate_pairs aid pid pres posts ≡ ok tt)
unfolding validate_pairs
PairsOk-validate_pairs aid pid [] [] h = (refl, refl)
PairsOk-validate_pairs aid pid [] (post ∷ posts) h = absurd h
PairsOk-validate_pairs aid pid (pre ∷ pres) [] h = absurd h
PairsOk-validate_pairs aid pid (pre ∷ pres) (post ∷ posts) h =
    let (l, rest) = PairsOk-validate_pairs aid pid pres posts h.1 in
    (omega (arith, l), rw (PairOk-validate_pair aid pid pre post h.0) rest)

-- The balances of the accounts are 128-bit numbers.
abbrev pub AreTyped : List AccountWithMetadata → List AccountPostState → Type 0
AreTyped pres posts = All IsU128 (pre_balances pres) × All IsU128 (post_balances posts)

validate_total-conserved :
    (pres : List AccountWithMetadata) (posts : List AccountPostState)
    → AreTyped pres posts
    → validate_total pres posts ≡ ok tt
    → sum (pre_balances pres) ≡ sum (post_balances posts)
unfolding validate_total
validate_total-conserved pres posts (tp, tq) h =
    let (a, ea, ha) =
      >>=-eq-ok (ok_or (from_balances (pre_balances pres)) balance_sum_overflow) _ h in
    let (b, eb, hb) =
      >>=-eq-ok (ok_or (from_balances (post_balances posts)) balance_sum_overflow) _ ha in
    sym (from_balances_value (pre_balances pres) a tp (ok_or-eq-ok _ _ ea))
    ∙ wrapped_eq-value a b (ensure-eq-ok _ _ hb)
    ∙ from_balances_value (post_balances posts) b tq (ok_or-eq-ok _ _ eb)

conserved-validate_total :
    (pres : List AccountWithMetadata) (posts : List AccountPostState)
    → AreTyped pres posts
    → length (pre_balances pres) < u128_mod
    → length (post_balances posts) < u128_mod
    → sum (pre_balances pres) ≡ sum (post_balances posts)
    → validate_total pres posts ≡ ok tt
unfolding validate_total
conserved-validate_total pres posts (tp, tq) lp lq h =
    let (a, ea) = from_balances_total (pre_balances pres) lp in
    let (b, eb) = from_balances_total (post_balances posts) lq in
    let (va, la) = from_balances_parts (pre_balances pres) a tp ea in
    let (vb, lb) = from_balances_parts (post_balances posts) b tq eb in
    rw (ea, eb) (rw (value-wrapped_eq a b la lb (va ∙ h ∙ sym vb)) refl)

validate_unique :
    (pres : List AccountWithMetadata)
    → (validate_uniqueness_of_account_ids pres ≡ true) ↔ IsDistinct (ids_of pres)
unfolding validate_uniqueness_of_account_ids
validate_unique pres = (
  λ h. length-to_set-IsDistinct (ids_of pres) (ground (arith, length-ids_of pres)),
  λ d. ground (arith, IsDistinct-length-to_set (ids_of pres) d, length-ids_of pres),
)

-- An execution that passes the checks, its balances being 128-bit numbers, is well behaved.
pub validate_execution-WellBehaved :
    (pid : ProgramId) (pres : List AccountWithMetadata) (posts : List AccountPostState)
    → AreTyped pres posts
    → validate_execution pres posts pid ≡ ok tt
    → WellBehaved pid pres posts
unfolding validate_execution
validate_execution-WellBehaved pid pres posts typed h =
    let (unique, h₁) = ensure->> _ _ _ h in
    let (same_length, h₂) = ensure->> _ _ _ h₁ in
    let (pairs_ok, total_ok) = >>-eq-ok _ _ h₂ in
    record {
      distinct = (validate_unique pres).0 unique;
      pairs = validate_pairs-PairsOk _ pid pres posts ((==_iff _ _).0 same_length) pairs_ok;
      conserved = validate_total-conserved pres posts typed total_ok;
    }

-- Of fewer than 2^128 accounts, with 128-bit balances before and after, exactly the
-- well-behaved executions pass the checks.
pub validate_execution_iff :
    (pid : ProgramId) (pres : List AccountWithMetadata) (posts : List AccountPostState)
    → AreTyped pres posts
    → length pres < u128_mod
    → (validate_execution pres posts pid ≡ ok tt) ↔ WellBehaved pid pres posts
unfolding validate_execution
validate_execution_iff pid pres posts typed few =
    (validate_execution-WellBehaved pid pres posts typed, accepts)
  where
    accepts : WellBehaved pid pres posts → validate_execution pres posts pid ≡ ok tt
    accepts w =
        let (same_length, pairs_ok) =
          PairsOk-validate_pairs (to_account_id pid) pid pres posts w.pairs in
        rw ((validate_unique pres).1 w.distinct, (==_iff _ _).1 same_length, pairs_ok)
          (conserved-validate_total pres posts typed (omega (arith, length-pre_balances pres, few))
            (omega (arith, length-post_balances posts, same_length, few)) w.conserved)
