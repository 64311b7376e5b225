-- ===== src/Handler/Dispatching.antt =====
-- Dispatch: which handler a command reaches in the default registry.
use time_series_cardinality.Base.{
  ◌≡◌, ◌≢◌, refl, ap, ◌∙◌, Option, none, some, Bytes, bytes_eq, bytes_eqb, arith, if◌then◌else◌,
  ◌==◌,
}
use time_series_cardinality.Map.{lookup, lookup-insert, lookup-empty}
use time_series_cardinality.Errors.{unknown_command, done}
use time_series_cardinality.Handler.{
  Command, Adder, Registry, Handler, type_add, type_batch_add, type_merge_sketch, apply_add,
  apply_batch_add, apply_merge_sketch, default_registry, dispatch,
}

module _ {ℓ} {S : Type ℓ} where
  pub lookup-default :
      (t : Bytes)
      → lookup t (default_registry {S = S}) ≡ (
          if type_merge_sketch == t
          then some apply_merge_sketch
          else if type_batch_add == t
          then some apply_batch_add
          else if type_add == t
          then some apply_add
          else none)
  unfolding default_registry
  lookup-default t =
      rw
        (
          lookup-insert type_merge_sketch t,
          lookup-insert type_batch_add t,
          lookup-insert type_add t,
          lookup-empty,
        )
        refl

  default_entries :
      (lookup type_add (default_registry {S = S}) ≡ some apply_add)
      × (lookup type_batch_add (default_registry {S = S}) ≡ some apply_batch_add)
      × (lookup type_merge_sketch (default_registry {S = S}) ≡ some apply_merge_sketch)
  unfolding bytes_eqb
  default_entries =
      (lookup-default type_add, lookup-default type_batch_add, lookup-default type_merge_sketch)

  pub dispatch_known :
      (r : Registry S) (cmd : Command) (apply : Adder S) (s : S) {h : Handler S}
      → lookup cmd.type r ≡ some h
      → dispatch r (some cmd) (some apply) s ≡ h cmd apply s
  unfolding dispatch
  dispatch_known r cmd apply s e = rw (e, dispatch)

  pub dispatch_unknown :
      (r : Registry S) (cmd : Command) (apply : Option (Adder S)) (s : S)
      → lookup cmd.type r ≡ none
      → dispatch r (some cmd) apply s ≡ done (some (unknown_command (some cmd.type)), s)
  unfolding dispatch
  dispatch_unknown r cmd apply s e = rw (e, dispatch)

  -- Dispatch with the default registry: each of the three types reaches its handler, and any other
  -- type is unknown and leaves the state alone. So does a nil adder, for a known type.
  pub dispatch-default :
      (cmd : Command) (apply : Adder S) (s : S)
      → (cmd.type ≡ type_add
          → dispatch default_registry (some cmd) (some apply) s ≡ apply_add cmd apply s)
        × (cmd.type ≡ type_batch_add
            → dispatch default_registry (some cmd) (some apply) s ≡ apply_batch_add cmd apply s)
        × (cmd.type ≡ type_merge_sketch
            → dispatch default_registry (some cmd) (some apply) s ≡ apply_merge_sketch cmd apply s)
        × (cmd.type ≢ type_add
            → cmd.type ≢ type_batch_add
            → cmd.type ≢ type_merge_sketch
            → dispatch default_registry (some cmd) (some apply) s
              ≡ done (some (unknown_command (some cmd.type)), s))
  dispatch-default cmd apply s =
      let (add, batch, merge) = default_entries in
      (
        λ e.
            dispatch_known default_registry cmd apply s
              (ap (λ t. lookup t default_registry) e ∙ add),
        λ e.
            dispatch_known default_registry cmd apply s
              (ap (λ t. lookup t default_registry) e ∙ batch),
        λ e.
            dispatch_known default_registry cmd apply s
              (ap (λ t. lookup t default_registry) e ∙ merge),
        λ a b c. dispatch_unknown default_registry cmd (some apply) s (
            ground (
              arith,
              lookup-default cmd.type,
              bytes_eq.beq_iff type_merge_sketch cmd.type,
              bytes_eq.beq_iff type_batch_add cmd.type,
              bytes_eq.beq_iff type_add cmd.type,
            )),
      )
