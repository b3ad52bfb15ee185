-- ===== src/Diff/Public/Conservation.antt =====
-- The totals of balances before and after the calls of a public transaction
-- (lee/state_machine/src/validated_state_diff/mod.rs).
use lssa.Prelude.{
  ℕ, ◌+◌, ◌≡◌, refl, sym, ap, subst, List, [], ◌∷◌, arith, Map, insert, IsDistinct, keys,
  keys-insert-IsDistinct,
}
use lssa.Account.{Account, AccountId, AccountWithMetadata}
use lssa.Program.{AccountPostState, ProgramId}
use lssa.Program.Balances.{sum}
use lssa.Program.Validate.{ids_of, pre_balances, post_balances}
use lssa.Program.Validate.WellBehaved.{WellBehaved, PairsOk}
use lssa.State.{V03State, get_account_by_id}
use lssa.State.Accounts.{total, stored_total, get_account_by_id_lem}
use lssa.Transaction.{Externals}
use lssa.Diff.Public.{expected_account, update_diff}
use lssa.Diff.Public.Calls.{ShowExpected, AllClaim, CallEffect}
use lssa.Diff.Public.Kept.{ShowExpected-insert}

-- The balances of the diff, and those that its accounts have in the state.
abbrev pub new_total : Map Account → ℕ
new_total [] = 0
new_total ((id, a) ∷ diff) = a.balance + new_total diff

abbrev pub old_total : V03State → Map Account → ℕ
old_total s [] = 0
old_total s ((id, a) ∷ diff) = (get_account_by_id s id).balance + old_total s diff

total-insert :
    (s : V03State) (k : AccountId) (v : Account) (diff : Map Account)
    → new_total (insert k v diff) + (expected_account s diff k).balance + old_total s diff
      ≡ new_total diff + v.balance + old_total s (insert k v diff)
unfolding expected_account
total-insert s k v [] = omega arith
total-insert s k v ((j, w) ∷ diff) = ground (arith, total-insert s k v diff)

AllClaim-balances :
    (outputs posts : List AccountPostState)
    → AllClaim outputs posts
    → sum (post_balances posts) ≡ sum (post_balances outputs)
AllClaim-balances [] [] h = refl
AllClaim-balances [] (q ∷ posts) h = absurd h
AllClaim-balances (o ∷ outputs) [] h = absurd h
AllClaim-balances (o ∷ outputs) (q ∷ posts) h =
    omega (arith, h.0.same_balance, AllClaim-balances outputs posts h.1)

total-update_diff :
    (s : V03State) (e : AccountId) (diff : Map Account) (pres : List AccountWithMetadata)
    (outputs posts : List AccountPostState)
    → IsDistinct (ids_of pres)
    → ShowExpected s diff pres
    → PairsOk e pres outputs
    → AllClaim outputs posts
    → new_total (update_diff diff pres posts) + sum (pre_balances pres) + old_total s diff
      ≡ new_total diff + sum (post_balances posts) + old_total s (update_diff diff pres posts)
unfolding update_diff
total-update_diff s e diff [] [] [] d sh ps cs = omega arith
total-update_diff s e diff [] [] (q ∷ posts) d sh ps cs = absurd cs
total-update_diff s e diff [] (o ∷ outputs) posts d sh ps cs = absurd ps
total-update_diff s e diff (pre ∷ pres) [] posts d sh ps cs = absurd ps
total-update_diff s e diff (pre ∷ pres) (o ∷ outputs) [] d sh ps cs = absurd cs
total-update_diff s e diff (pre ∷ pres) (o ∷ outputs) (q ∷ posts) d sh ps cs = omega (
  arith,
  ap (λ (a : Account). a.balance) sh.0,
  total-insert s pre.account_id q.account diff,
  total-update_diff s e (insert pre.account_id q.account diff) pres outputs posts d.1
      (ShowExpected-insert s diff pre.account_id q.account pres d.0 sh.1) ps.1 cs.1,
)

update_diff-IsDistinct :
    (diff : Map Account) (pres : List AccountWithMetadata) (posts : List AccountPostState)
    → IsDistinct (keys diff)
    → IsDistinct (keys (update_diff diff pres posts))
unfolding update_diff
update_diff-IsDistinct diff [] posts h = h
update_diff-IsDistinct diff (pre ∷ pres) [] h = h
update_diff-IsDistinct diff (pre ∷ pres) (q ∷ posts) h =
    update_diff-IsDistinct (insert pre.account_id q.account diff) pres posts
      (keys-insert-IsDistinct pre.account_id q.account diff h)

-- The diff lists each account once, and its balances add up to those of the state.
pub record IsBalanced (s : V03State) (diff : Map Account) : Type 0 where
  pub distinct : IsDistinct (keys diff)
  pub totals : new_total diff ≡ old_total s diff

update_diff-IsBalanced :
    (s : V03State) (pid : ProgramId) (diff : Map Account) (pres : List AccountWithMetadata)
    (outputs posts : List AccountPostState)
    → ShowExpected s diff pres
    → WellBehaved pid pres outputs
    → AllClaim outputs posts
    → IsBalanced s diff
    → IsBalanced s (update_diff diff pres posts)
update_diff-IsBalanced s pid diff pres outputs posts sh w cs b = record {
  distinct = update_diff-IsDistinct diff pres posts b.distinct;
  totals = omega (
    arith,
    b.totals,
    w.conserved,
    AllClaim-balances outputs posts cs,
    total-update_diff s _ diff pres outputs posts w.distinct sh w.pairs cs,
  );
}

pub CallEffect-IsBalanced :
    (ext : Externals) (s : V03State) (diff : Map Account) (pid : ProgramId) (diff' : Map Account)
    → CallEffect ext s diff pid diff'
    → IsBalanced s diff
    → IsBalanced s diff'
CallEffect-IsBalanced ext s diff pid diff' c b =
    subst (IsBalanced s) (sym c.updated)
      (update_diff-IsBalanced s pid diff c.pres c.outputs c.posts c.shown c.behaved c.claimed b)

pub IsBalanced-nil : (s : V03State) → IsBalanced s []
IsBalanced-nil s = record { distinct = tt; totals = refl }

pub new_total-eq-total : (diff : Map Account) → new_total diff ≡ total diff
new_total-eq-total [] = refl
new_total-eq-total ((id, a) ∷ diff) = omega (arith, new_total-eq-total diff)

pub old_total-eq-stored :
    (s : V03State) (diff : Map Account) → old_total s diff ≡ stored_total s.public_state diff
old_total-eq-stored s [] = refl
old_total-eq-stored s ((id, a) ∷ diff) =
    rw (get_account_by_id_lem s id) (omega (arith, old_total-eq-stored s diff))
