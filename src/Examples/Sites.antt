-- ===== src/Examples/Sites.antt =====
-- Workers of two sites and the providers they use: brain/manager.go and llm/registry.go.
use ho.Brain.Manager.{new_manager}
use ho.Brain.Manager.Threads.{IsValid, Op, do_start, do_stop, run_ops, run_ops-IsValid}
use ho.Llm.{Providers, default_provider}
use ho.Llm.Default.{has_named, do_register, do_set_default, run, run-default_provider}
use ho.Llm.Default.{Op as ProviderOp}
use ho.Prelude.{ℕ, ◌≡◌, refl}
use ho.Prelude.{true, false}
use ho.Prelude.{List, [], ◌∷◌}
use ho.Prelude.Bytes.{codes}
use ho.Prelude.Dict.{is_found}

abbrev site_ops : List Op
site_ops = do_start true true 7 ∷ do_start true false 8 ∷ do_start true true 7 ∷ do_stop 7 ∷ []

run_ops-IsValid_example : IsValid (run_ops site_ops new_manager)
run_ops-IsValid_example = run_ops-IsValid site_ops new_manager ((tt, tt, tt, refl))

abbrev provider_ops : List (ProviderOp ℕ)
provider_ops =
    do_register (codes "local") 1
    ∷ do_register (codes "remote") 2
    ∷ do_set_default (codes "remote")
    ∷ []

abbrev none_yet : Providers ℕ
none_yet = record { providers = []; default_name = [] }

run-default_provider_example :
    is_found (default_provider (run provider_ops none_yet))
    ≡ has_named (run provider_ops none_yet).providers
run-default_provider_example =
    run-default_provider provider_ops none_yet ((refl, (refl, (refl, tt)))) ((tt, refl))
