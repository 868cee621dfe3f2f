-- ===== src/Backends/Network/Shapes.antt =====
-- Each shape of the methods of the network backend reports what it did.
use stellarview_tui.Prelude.{◌≡◌, refl, ap, String, true, inl, inr, Option, none, some}
use stellarview_tui.Backends.Interface.{Failure, Reply, replied, failed}
use stellarview_tui.Backends.Network.{
  Horizon, Rpc, Network, new_error, reported, either_source, only_horizon, in_its_place,
  after_first, horizon_first, after_both, after_horizon, merged_sources,
}
use stellarview_tui.Backends.Network.Answers.{
  on_horizon, Way, plain, in_turn, together, by_horizon, by_both, by_rpc_instead, by_rpc,
  horizon_failed, rpc_failed, both_failed, IsReported,
}

replied-injective : {A : Type 0} {x y : A} → replied x ≡ replied y → y ≡ x
replied-injective h = cc

failed_text : {A : Type 0} {e f : Failure} → Path (Reply A) (failed e) (failed f) → e.text ≡ f.text
failed_text h = cc

module _ {A : Type 0} (operation : String) (b : Network) where
  pub reported-IsReported-rpc :
      (way : Way A) (answer : Reply A)
      → IsReported way none (some answer) operation b (reported operation "rpc" answer b)
  unfolding reported
  reported-IsReported-rpc way (replied response) = record {
    value = λ v h. (refl, by_rpc refl (ap (λ r. some r) h) refl refl);
    error = λ f h. cc;
  }
  reported-IsReported-rpc way (failed err) = record {
    value = λ v h. cc;
    error = λ f h. inl (refl, refl, rpc_failed refl (ap (λ r. some r) h) refl (failed_text h));
  }

  pub reported-IsReported :
      (nothing : Option A) (answer : Reply A) (rpc : Option (Reply A))
      → IsReported
          (plain nothing)
          (some answer)
          rpc
          operation
          b
          (reported operation "horizon" answer b)
  unfolding reported
  reported-IsReported nothing (replied response) rpc = record {
    value = λ v h. (refl, by_horizon response refl (replied-injective h) (inl refl) refl refl);
    error = λ f h. cc;
  }
  reported-IsReported nothing (failed err) rpc = record {
    value = λ v h. cc;
    error = λ f h. inl (refl, refl, horizon_failed (ap (λ r. some r) h) refl refl (failed_text h));
  }

  pub unserved-IsReported :
      (way : Way A) (err : Failure) → IsReported way none none operation b (failed err, b)
  unserved-IsReported way err = record { value = λ v h. cc; error = λ f h. inr (refl, refl, refl) }

  in_its_place-IsReported :
      (way : Way A) (err : Failure) (answer : Reply A)
      → way.in_place ≡ true
      → IsReported way
          (some (failed err))
          (some answer)
          operation
          b
          (in_its_place operation err answer b)
  unfolding in_its_place
  in_its_place-IsReported way err (replied response) asked = record {
    value = λ v h. (refl, by_rpc_instead err refl asked (ap (λ r. some r) h) refl refl refl);
    error = λ f h. cc;
  }
  in_its_place-IsReported way err (failed rpc_err) asked = record {
    value = λ v h. cc;
    error = λ f h. inl (refl, refl, both_failed err refl asked (ap (λ r. some r) h) refl refl);
  }

  after_first-IsReported :
      (own other : Reply A)
      → IsReported in_turn (some own) (some other) operation b (after_first operation own other b)
  unfolding after_first
  after_first-IsReported (replied response) other = record {
    value = λ v h. (refl, by_horizon response refl (replied-injective h) (inl refl) refl refl);
    error = λ f h. cc;
  }
  after_first-IsReported (failed err) other = in_its_place-IsReported in_turn err other refl

  after_horizon-IsReported :
      (both : A → A → A) (alone : A → A) (own other : Reply A)
      → IsReported
          (together both alone)
          (some own)
          (some other)
          operation
          b
          (after_horizon operation both alone own other b)
  unfolding after_horizon after_both
  after_horizon-IsReported both alone (replied response) (replied rpc_response) = record {
    value = λ v h.
        (refl, by_both both response rpc_response refl refl refl (replied-injective h) refl refl);
    error = λ f h. cc;
  }
  after_horizon-IsReported both alone (replied response) (failed rpc_err) = record {
    value = λ v h.
        (refl, by_horizon response refl (replied-injective h) (inr (rpc_err, refl)) refl refl);
    error = λ f h. cc;
  }
  after_horizon-IsReported both alone (failed err) other =
      in_its_place-IsReported (together both alone) err other refl

  pub either_source-IsReported :
      (ask_horizon : Horizon → Reply A) (ask_rpc : Rpc → Reply A) (horizon : Option Horizon)
      → IsReported
          (plain none)
          (on_horizon horizon ask_horizon)
          (some (ask_rpc b.rpc))
          operation
          b
          (either_source operation ask_horizon ask_rpc b horizon)
  unfolding either_source on_horizon
  either_source-IsReported ask_horizon ask_rpc none =
      reported-IsReported-rpc (plain none) (ask_rpc b.rpc)
  either_source-IsReported ask_horizon ask_rpc (some horizon) =
      reported-IsReported none (ask_horizon horizon) (some (ask_rpc b.rpc))

  pub only_horizon-IsReported :
      (missing : String) (ask_horizon : Horizon → Reply A) (horizon : Option Horizon)
      → IsReported
          (plain none)
          (on_horizon horizon ask_horizon)
          none
          operation
          b
          (only_horizon operation missing ask_horizon b horizon)
  unfolding only_horizon on_horizon
  only_horizon-IsReported missing ask_horizon none =
      unserved-IsReported (plain none) (new_error missing)
  only_horizon-IsReported missing ask_horizon (some horizon) =
      reported-IsReported none (ask_horizon horizon) none

  pub horizon_first-IsReported :
      (ask_horizon : Horizon → Reply A) (ask_rpc : Rpc → Reply A) (horizon : Option Horizon)
      → IsReported in_turn
          (on_horizon horizon ask_horizon)
          (some (ask_rpc b.rpc))
          operation
          b
          (horizon_first operation ask_horizon ask_rpc b horizon)
  unfolding horizon_first on_horizon
  horizon_first-IsReported ask_horizon ask_rpc none =
      reported-IsReported-rpc in_turn (ask_rpc b.rpc)
  horizon_first-IsReported ask_horizon ask_rpc (some horizon) =
      after_first-IsReported (ask_horizon horizon) (ask_rpc b.rpc)

  pub merged_sources-IsReported :
      (both : A → A → A) (alone : A → A) (ask_horizon : Horizon → Reply A) (ask_rpc : Rpc → Reply A)
      (horizon : Option Horizon)
      → IsReported
          (together both alone)
          (on_horizon horizon ask_horizon)
          (some (ask_rpc b.rpc))
          operation
          b
          (merged_sources operation both alone ask_horizon ask_rpc b horizon)
  unfolding merged_sources on_horizon
  merged_sources-IsReported both alone ask_horizon ask_rpc none =
      reported-IsReported-rpc (together both alone) (ask_rpc b.rpc)
  merged_sources-IsReported both alone ask_horizon ask_rpc (some horizon) =
      after_horizon-IsReported both alone (ask_horizon horizon) (ask_rpc b.rpc)
