-- ===== src/Backends/Hybrid/Source.antt =====
-- Where the answers of the hybrid backend come from.
use stellarview_tui.Prelude.{
  ◌≡◌, refl, ap, ◌∙◌, String, true, false, ◌⊎◌, inl, inr, Option, none, some, Bool-cases,
}
use stellarview_tui.App.State.{SourceMetadata}
use stellarview_tui.Backends.Interface.{
  Failure, Reply, replied, failed, Lists, Backend, Request, operation_of, on_lists, direct,
  search_asked, live_feed_summary_asked, ledger_asked, transaction_asked, account_asked,
  asset_asked, contract_asked, ledgers_asked, ledger_transactions_asked, accounts_asked,
  account_operations_asked, account_timeline_asked, assets_asked, asset_holders_asked,
  asset_timeline_asked, contracts_asked, contract_events_asked, contract_storage_asked,
  contract_invocations_asked, contract_timeline_asked,
}
use stellarview_tui.Backends.Hybrid.{
  Hybrid, should_fallback_to_rpc, new_error, after_fallback, primary_failed, after_primary,
  with_fallback, after_only, only_primary, list_fallback, list_with_fallback,
}
use stellarview_tui.Backends.Hybrid.Methods.{
  ask, search, live_feed_summary, ledger, transaction, account, asset, contract, ledgers,
  ledger_transactions, accounts, account_operations, account_timeline, assets, asset_holders,
  asset_timeline, contracts, contract_events, contract_storage, contract_invocations,
  contract_timeline,
}

module _ {A : Type 0} where
  -- The indexer cannot answer: it does not implement the method, or fails in a way that the
  -- network may not.
  abbrev pub IsUnable : Option (Reply A) → Type 0
  IsUnable indexer =
      (indexer ≡ none)
      ⊎ ((err : Failure) × (indexer ≡ some (failed err)) × (should_fallback_to_rpc err ≡ true))

  -- Where a value comes from, and what the metadata say of it.
  pub data CameFrom (indexer network : Option (Reply A)) (value : A) (m : SourceMetadata)
      : Type 0 where
    from_indexer :
        indexer ≡ some (replied value)
        → m.actual ≡ "indexer"
        → m.fallback_used ≡ false
        → m.degraded ≡ false
        → CameFrom indexer network value m
    from_network :
        IsUnable indexer
        → network ≡ some (replied value)
        → m.actual ≡ "rpc"
        → m.fallback_used ≡ true
        → m.degraded ≡ true
        → CameFrom indexer network value m

  -- The metadata after a call are those of its operation; a value comes from the source that they
  -- name, and an error leaves them degraded.
  pub record IsHonest (operation : String) (indexer network : Option (Reply A))
      (result : Reply A × Hybrid) : Type 0 where
    pub named : result.1.last_meta.operation ≡ operation
    pub value : (v : A) → result.0 ≡ replied v → CameFrom indexer network v result.1.last_meta
    pub error : (err : Failure) → result.0 ≡ failed err → result.1.last_meta.degraded ≡ true

  module _ (operation : String) (indexer network : Option (Reply A)) (b : Hybrid) where
    after_fallback-IsHonest :
        (err : Failure) (answer : Reply A)
        → IsUnable indexer
        → network ≡ some answer
        → IsHonest operation indexer network (after_fallback operation b err answer)
    unfolding after_fallback
    after_fallback-IsHonest err (replied response) unable e = record {
      named = refl;
      value = λ v h. from_network unable (e ∙ ap (λ r. some r) h) refl refl refl;
      error = λ f h. cc;
    }
    after_fallback-IsHonest err (failed fallback_err) unable e = record {
      named = refl;
      value = λ v h. cc;
      error = λ f h. refl;
    }

    primary_failed-IsHonest :
        (err : Failure) → IsHonest operation indexer network (primary_failed operation b err)
    primary_failed-IsHonest err = record { named = refl; value = λ v h. cc; error = λ f h. refl }

    after_primary-IsHonest :
        (answer : Reply A) (fall : Failure → Reply A × Hybrid)
        → indexer ≡ some answer
        → ((err : Failure) → IsUnable indexer → IsHonest operation indexer network (fall err))
        → IsHonest operation indexer network (after_primary operation b answer fall)
    unfolding after_primary
    after_primary-IsHonest (replied response) fall e falls = record {
      named = refl;
      value = λ v h. from_indexer (e ∙ ap (λ r. some r) h) refl refl refl;
      error = λ f h. cc;
    }
    after_primary-IsHonest (failed err) fall e falls =
        elim (Bool-cases (should_fallback_to_rpc err)) [
          | inl worthy ↦ rw worthy (falls err (inr (err, e, worthy)))
          | inr unworthy ↦ rw unworthy (primary_failed-IsHonest err)
        ]

    after_only-IsHonest :
        (answer : Reply A)
        → indexer ≡ some answer
        → IsHonest operation indexer network (after_only operation b answer)
    unfolding after_only
    after_only-IsHonest (replied response) e = record {
      named = refl;
      value = λ v h. from_indexer (e ∙ ap (λ r. some r) h) refl refl refl;
      error = λ f h. cc;
    }
    after_only-IsHonest (failed err) e = primary_failed-IsHonest err

  module _ (operation : String) (b : Hybrid) where
    with_fallback-IsHonest :
        (call : Backend → Reply A)
        → IsHonest operation
            (some (call b.primary))
            (some (call b.fallback))
            (with_fallback operation call b)
    with_fallback-IsHonest call =
        after_primary-IsHonest operation _ (some (call b.fallback)) b (call b.primary) _ refl
          (λ err unable. after_fallback-IsHonest operation _ _ b err (call b.fallback) unable refl)

    only_primary-IsHonest :
        (missing : String) (call : Lists → Reply A) (lists : Option Lists)
        (network : Option (Reply A))
        → IsHonest operation
            (on_lists lists call)
            network
            (only_primary operation missing call b lists)
    unfolding only_primary on_lists
    only_primary-IsHonest missing call none network =
        primary_failed-IsHonest operation _ _ b (new_error missing)
    only_primary-IsHonest missing call (some primary) network =
        after_only-IsHonest operation _ _ b (call primary) refl

    list_fallback-IsHonest :
        (missing : String) (call : Lists → Reply A) (err : Failure) (indexer : Option (Reply A))
        (lists : Option Lists)
        → IsUnable indexer
        → IsHonest operation indexer
            (on_lists lists call)
            (list_fallback operation missing call b err lists)
    unfolding list_fallback on_lists
    list_fallback-IsHonest missing call err indexer none unable = record {
      named = refl;
      value = λ v h. cc;
      error = λ f h. refl;
    }
    list_fallback-IsHonest missing call err indexer (some fallback) unable =
        after_fallback-IsHonest operation _ _ b err (call fallback) unable refl

    list_with_fallback-IsHonest :
        (missing missing_rpc : String) (call : Lists → Reply A) (lists : Option Lists)
        → IsHonest operation
            (on_lists lists call)
            (on_lists b.fallback.lists call)
            (list_with_fallback operation missing missing_rpc call b lists)
    unfolding list_with_fallback on_lists
    list_with_fallback-IsHonest missing missing_rpc call none =
        list_fallback-IsHonest missing_rpc call (new_error missing) none b.fallback.lists (inl refl)
    list_with_fallback-IsHonest missing missing_rpc call (some primary) =
        after_primary-IsHonest operation _ _ b (call primary) _ refl
          (λ err unable. list_fallback-IsHonest missing_rpc call err _ b.fallback.lists unable)

-- Whatever method is called: a value is what one source answers to that very request, the indexer
-- unless it does not implement the method or fails with an error for which the network is asked;
-- the metadata name that source and the operation, and are degraded unless the indexer answered.
pub ask-IsHonest :
    (r : Request) (b : Hybrid)
    → IsHonest (operation_of r) (direct r b.primary) (direct r b.fallback) (ask r b)
unfolding ask direct search live_feed_summary ledger transaction account asset contract ledgers
    ledger_transactions accounts account_operations account_timeline assets asset_holders
    asset_timeline contracts contract_events contract_storage contract_invocations contract_timeline
ask-IsHonest (search_asked query limit) b =
    with_fallback-IsHonest _ b (λ source. source.search query limit)
ask-IsHonest (live_feed_summary_asked) b =
    with_fallback-IsHonest _ b (λ source. source.live_feed_summary)
ask-IsHonest (ledger_asked sequence) b =
    with_fallback-IsHonest _ b (λ source. source.ledger sequence)
ask-IsHonest (transaction_asked hash) b =
    with_fallback-IsHonest _ b (λ source. source.transaction hash)
ask-IsHonest (account_asked id) b = with_fallback-IsHonest _ b (λ source. source.account id)
ask-IsHonest (asset_asked code issuer) b =
    with_fallback-IsHonest _ b (λ source. source.asset code issuer)
ask-IsHonest (contract_asked id) b = with_fallback-IsHonest _ b (λ source. source.contract id)
ask-IsHonest (ledgers_asked limit before) b = list_with_fallback-IsHonest _ b _ _ _ b.primary.lists
ask-IsHonest (ledger_transactions_asked sequence limit offset) b =
    only_primary-IsHonest _ b _ _ b.primary.lists _
ask-IsHonest (accounts_asked limit) b = only_primary-IsHonest _ b _ _ b.primary.lists _
ask-IsHonest (account_operations_asked id limit offset) b =
    only_primary-IsHonest _ b _ _ b.primary.lists _
ask-IsHonest (account_timeline_asked id limit offset category) b =
    only_primary-IsHonest _ b _ _ b.primary.lists _
ask-IsHonest (assets_asked limit) b = only_primary-IsHonest _ b _ _ b.primary.lists _
ask-IsHonest (asset_holders_asked code issuer limit offset) b =
    only_primary-IsHonest _ b _ _ b.primary.lists _
ask-IsHonest (asset_timeline_asked code issuer limit offset category) b =
    only_primary-IsHonest _ b _ _ b.primary.lists _
ask-IsHonest (contracts_asked limit) b = only_primary-IsHonest _ b _ _ b.primary.lists _
ask-IsHonest (contract_events_asked id limit offset) b =
    list_with_fallback-IsHonest _ b _ _ _ b.primary.lists
ask-IsHonest (contract_storage_asked id limit offset) b =
    list_with_fallback-IsHonest _ b _ _ _ b.primary.lists
ask-IsHonest (contract_invocations_asked id limit offset) b =
    only_primary-IsHonest _ b _ _ b.primary.lists _
ask-IsHonest (contract_timeline_asked id limit offset category) b =
    only_primary-IsHonest _ b _ _ b.primary.lists _
