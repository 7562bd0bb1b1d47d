-- ===== src/Cycle/Errors.antt =====
-- errors.Join: nil for no errors. `errors.Is` finds a kind in any of them.
use doris_sync.Base.{Bool, true, false, ◌||◌, List, [], ◌∷◌, Option, none, some, map}
use doris_sync.Base.Text.{join}
use doris_sync.Base.Act.{Err, Kind, is_persistence, Act, pure, fail}
use doris_sync.World.{World}

abbrev pub any_persistence : List Err → Bool
any_persistence [] = false
any_persistence (e ∷ es) = is_persistence e || any_persistence es

abbrev joined_kind : Bool → Kind
joined_kind true = Kind.persistence
joined_kind false = Kind.plain

unfoldable pub joined : List Err → Err
unfolding join
joined es = record {
  kind = joined_kind (any_persistence es);
  message = join "\n" (map (λ e. e.message) es);
}

unfoldable pub join_errors : List Err → Option Err
join_errors [] = none
join_errors (e ∷ es) = some (joined (e ∷ es))

-- return errors.Join(failures...)
abbrev pub return_joined : List Err → Act World (Unit {0})
return_joined [] = pure tt
return_joined (e ∷ es) = fail (joined (e ∷ es))
