-- ===== src/Backends/Network/Merge.antt =====
-- The merge of the answers of Horizon and of the RPC node: tui/internal/networkbackend/backend.go.
use stellarview_tui.Prelude.{
  ◌≡◌, refl, String, Bool, true, false, not, ◌&&◌, ◌||◌, Option, none, some, inl, inr, List, [],
  ◌∷◌, if◌then◌else◌, Bool-cases,
}
use stellarview_tui.Prelude.Text.{is_empty, trim_space}
use stellarview_tui.Client.Transactions.{TransactionDetail, TransactionLookupResponse}
use stellarview_tui.Client.Accounts.{AccountSignerSummary, AccountLookupResponse}

-- A text of the RPC node where Horizon's is blank.
unfoldable pub filled : String → String → String
filled own other =
    if is_empty (trim_space own) && not (is_empty (trim_space other)) then other else own

unfoldable pub has_meta : Option String → Bool
has_meta none = false
has_meta (some meta) = not (is_empty (trim_space meta))

abbrev pub merge_transaction : TransactionDetail → TransactionDetail → TransactionDetail
merge_transaction horizon rpc = record horizon {
  envelope_xdr = filled horizon.envelope_xdr rpc.envelope_xdr;
  result_xdr = filled horizon.result_xdr rpc.result_xdr;
  result_meta_xdr =
      if has_meta rpc.result_meta_xdr then rpc.result_meta_xdr else horizon.result_meta_xdr;
  is_soroban =
      if has_meta rpc.result_meta_xdr
      then horizon.is_soroban || rpc.is_soroban
      else horizon.is_soroban;
}

unfoldable pub merge_details :
    Option TransactionDetail → Option TransactionDetail → Option TransactionDetail
merge_details none rpc = none
merge_details (some horizon) none = some horizon
merge_details (some horizon) (some rpc) = some (merge_transaction horizon rpc)

-- `mergeTransactionLookup`
unfoldable pub merge_transaction_lookup :
    TransactionLookupResponse → TransactionLookupResponse → TransactionLookupResponse
merge_transaction_lookup horizon rpc = record horizon {
  transaction = merge_details horizon.transaction rpc.transaction;
}

unfoldable pub merge_signers :
    List AccountSignerSummary → List AccountSignerSummary → List AccountSignerSummary
merge_signers [] rpc = rpc
merge_signers (signer ∷ signers) rpc = signer ∷ signers

-- `mergeAccountLookup`
unfoldable pub merge_account_lookup :
    AccountLookupResponse → AccountLookupResponse → AccountLookupResponse
merge_account_lookup horizon rpc = elim horizon.account [
  | none ↦ horizon
  | some account ↦ elim rpc.account [
    | none ↦ horizon
    | some rpc_account ↦ record horizon { signers = merge_signers horizon.signers rpc.signers }
  ]
]

-- A text is blank after the merge only if it was blank on both sides.
filled-blank :
    (own other : String)
    → is_empty (trim_space (filled own other))
      ≡ (is_empty (trim_space own) && is_empty (trim_space other))
unfolding filled
filled-blank own other = elim (Bool-cases (is_empty (trim_space own))) [
  | inl blank ↦ elim (Bool-cases (is_empty (trim_space other))) [
    | inl both ↦ rw (blank, both) blank
    | inr found ↦ rw (blank, found) found
  ]
  | inr there ↦ rw there there
]

filled-again : (own other : String) → filled (filled own other) other ≡ filled own other
unfolding filled
filled-again own other = elim (Bool-cases (is_empty (trim_space own))) [
  | inl blank ↦ elim (Bool-cases (is_empty (trim_space other))) [
    | inl both ↦ rw (blank, both) (rw blank refl)
    | inr found ↦ rw (blank, found) (rw found refl)
  ]
  | inr there ↦ rw there (rw there refl)
]

if-again :
    {A : Type 0} (test : Bool) (x y : A)
    → (if test then x else if test then x else y) ≡ (if test then x else y)
if-again true x y = refl
if-again false x y = refl

or-again :
    (test a b : Bool)
    → (if test then (if test then a || b else a) || b else (if test then a || b else a))
      ≡ (if test then a || b else a)
or-again true true b = refl
or-again true false true = refl
or-again true false false = refl
or-again false a b = refl

merge_details-again :
    (horizon rpc : Option TransactionDetail)
    → merge_details (merge_details horizon rpc) rpc ≡ merge_details horizon rpc
unfolding merge_details
merge_details-again none rpc = refl
merge_details-again (some horizon) none = refl
merge_details-again (some horizon) (some rpc) =
    rw
      (
        filled-again horizon.envelope_xdr rpc.envelope_xdr,
        filled-again horizon.result_xdr rpc.result_xdr,
        if-again (has_meta rpc.result_meta_xdr) rpc.result_meta_xdr horizon.result_meta_xdr,
        or-again (has_meta rpc.result_meta_xdr) horizon.is_soroban rpc.is_soroban,
      )
      refl

-- A second merge with the same answer of the RPC node changes nothing.
pub merge_transaction_lookup-again :
    (horizon rpc : TransactionLookupResponse)
    → merge_transaction_lookup (merge_transaction_lookup horizon rpc) rpc
      ≡ merge_transaction_lookup horizon rpc
unfolding merge_transaction_lookup
merge_transaction_lookup-again horizon rpc =
    rw (merge_details-again horizon.transaction rpc.transaction) refl

-- After a merge of two transactions, the envelope and the result are blank only if both sides had
-- them blank, and Horizon's are never replaced unless they were blank.
pub merge_transaction_complete :
    (horizon rpc : TransactionDetail)
    → (is_empty (trim_space (merge_transaction horizon rpc).envelope_xdr)
        ≡ (is_empty (trim_space horizon.envelope_xdr) && is_empty (trim_space rpc.envelope_xdr)))
      × (is_empty (trim_space (merge_transaction horizon rpc).result_xdr)
          ≡ (is_empty (trim_space horizon.result_xdr) && is_empty (trim_space rpc.result_xdr)))
      × (is_empty (trim_space horizon.envelope_xdr) ≡ false
          → (merge_transaction horizon rpc).envelope_xdr ≡ horizon.envelope_xdr)
      × (is_empty (trim_space horizon.result_xdr) ≡ false
          → (merge_transaction horizon rpc).result_xdr ≡ horizon.result_xdr)
unfolding filled
merge_transaction_complete horizon rpc = (
  filled-blank horizon.envelope_xdr rpc.envelope_xdr,
  filled-blank horizon.result_xdr rpc.result_xdr,
  (λ there. rw there refl),
  (λ there. rw there refl),
)
