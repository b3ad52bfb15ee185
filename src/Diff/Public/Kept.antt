-- ===== src/Diff/Public/Kept.antt =====
-- Nonces and owners under the calls of a public transaction
-- (lee/state_machine/src/validated_state_diff/mod.rs).
use lssa.Prelude.{
  ◌≡◌, ◌⊎◌, inl, refl, sym, subst, false, none, some, List, [], ◌∷◌, arith, ◌==◌, if◌then◌else◌,
  Map, insert, lookup, lookup-insert, contains, IsDistinct,
}
use lssa.Account.{Account, AccountId, AccountWithMetadata}
use lssa.Program.{AccountPostState, ProgramId, default_program_owner}
use lssa.Program.Validate.{ids_of}
use lssa.Program.Validate.WellBehaved.{PairOk, PairsOk}
use lssa.State.{V03State, account_in, get_account_by_id}
use lssa.State.Accounts.{get_account_by_id_lem}
use lssa.Transaction.{Externals}
use lssa.Diff.Public.{expected_account, update_diff}
use lssa.Diff.Public.Calls.{ShowExpected, Claims, AllClaim, CallEffect}

pub record Kept (a b : Account) : Type 0 where
  pub same_nonce : b.nonce ≡ a.nonce
  pub owner : (b.program_owner ≡ a.program_owner) ⊎ (a.program_owner ≡ default_program_owner)

Kept-refl : (a : Account) → Kept a a
Kept-refl a = record { same_nonce = refl; owner = inl refl }

Kept-trans : {a b c : Account} → Kept a b → Kept b c → Kept a c
Kept-trans h k = ground arith

PairOk-Kept : {e : AccountId} {a b c : Account} → PairOk e a b → Claims b c → Kept a c
PairOk-Kept h k = ground arith

pub expected_account-insert :
    (s : V03State) (diff : Map Account) (k : AccountId) (v : Account) (id : AccountId)
    → expected_account s (insert k v diff) id ≡ (if id == k then v else expected_account s diff id)
unfolding expected_account
expected_account-insert s diff k v id = ground (arith, lookup-insert id k v diff)

-- Pre-states of other accounts still show what is expected.
pub ShowExpected-insert :
    (s : V03State) (diff : Map Account) (k : AccountId) (v : Account)
    (pres : List AccountWithMetadata)
    → contains k (ids_of pres) ≡ false
    → ShowExpected s diff pres
    → ShowExpected s (insert k v diff) pres
ShowExpected-insert s diff k v [] h e = tt
ShowExpected-insert s diff k v (pre ∷ pres) h e =
    ground (
      arith,
      expected_account-insert s diff k v pre.account_id,
      ShowExpected-insert s diff k v pres,
    )

insert-Kept :
    (s : V03State) (diff : Map Account) (k : AccountId) (v : Account) (id : AccountId)
    → Kept (expected_account s diff k) v
    → Kept (expected_account s diff id) (expected_account s (insert k v diff) id)
insert-Kept s diff k v id h = ground (arith, expected_account-insert s diff k v id)

update_diff-Kept :
    (s : V03State) (e : AccountId) (diff : Map Account) (pres : List AccountWithMetadata)
    (outputs posts : List AccountPostState) (id : AccountId)
    → IsDistinct (ids_of pres)
    → ShowExpected s diff pres
    → PairsOk e pres outputs
    → AllClaim outputs posts
    → Kept (expected_account s diff id) (expected_account s (update_diff diff pres posts) id)
unfolding update_diff
update_diff-Kept s e diff [] outputs posts id d sh ps cs = Kept-refl _
update_diff-Kept s e diff (pre ∷ pres) outputs [] id d sh ps cs = Kept-refl _
update_diff-Kept s e diff (pre ∷ pres) [] (q ∷ posts) id d sh ps cs = absurd ps
update_diff-Kept s e diff (pre ∷ pres) (o ∷ outputs) (q ∷ posts) id d sh ps cs =
    Kept-trans
      (insert-Kept s diff pre.account_id q.account id
        (subst (λ a. Kept a q.account) sh.0 (PairOk-Kept ps.0 cs.0)))
      (update_diff-Kept s e (insert pre.account_id q.account diff) pres outputs posts id d.1
        (ShowExpected-insert s diff pre.account_id q.account pres d.0 sh.1) ps.1 cs.1)

-- The nonce and the owner of every account, as the calls so far have left it.
abbrev pub AllKept : V03State → Map Account → Type 0
AllKept s diff = (id : AccountId) → Kept (get_account_by_id s id) (expected_account s diff id)

pub CallEffect-AllKept :
    (ext : Externals) (s : V03State) (diff : Map Account) (pid : ProgramId) (diff' : Map Account)
    → CallEffect ext s diff pid diff'
    → AllKept s diff
    → AllKept s diff'
CallEffect-AllKept ext s diff pid diff' c h id =
    subst (λ d. Kept (get_account_by_id s id) (expected_account s d id)) (sym c.updated)
      (Kept-trans (h id) (
        update_diff-Kept s _ diff c.pres c.outputs c.posts id c.behaved.distinct c.shown
          c.behaved.pairs c.claimed))

pub AllKept-nil : (s : V03State) → AllKept s []
unfolding expected_account
AllKept-nil s id = Kept-refl _

pub expected_account_lem :
    (s : V03State) (diff : Map Account) (id : AccountId)
    → expected_account s diff id
      ≡ elim (lookup id diff) [ none ↦ account_in s.public_state id | some a ↦ a ]
unfolding expected_account
expected_account_lem s diff id = ground (arith, get_account_by_id_lem s id)
