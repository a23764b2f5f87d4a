-- ===== src/Kconfig/Monad.antt =====
-- Code that reads and writes the store of symbols; `none` means that the fuel ran out.
use lightbuild.Prelude.{Bool, Option, none, some, if◌then◌else◌}
use lightbuild.Kconfig.Symbol.{Sym}
use lightbuild.Kconfig.Store.{UserSymbol, Store, update}

abbrev pub M : Type 0 → Type 0
M A = Store → Option (A × Store)

unfoldable pub pure : {A : Type 0} → A → M A
pure a s = some (a, s)

infixl 5 ◌>>=◌ ◌>>◌
unfoldable pub ◌>>=◌ : {A B : Type 0} → M A → (A → M B) → M B
◌>>=◌ m f s = elim (m s) [ none ↦ none | some (a, s') ↦ f a s' ]

unfoldable pub ◌>>◌ : {B : Type 0} → M (Unit {0}) → M B → M B
unfolding ◌>>=◌
m >> k = m >>= λ _. k

unfoldable pub read : {A : Type 0} → (Store → A) → M A
read f s = some (f s, s)

unfoldable pub write : (Store → Store) → M (Unit {0})
write f s = some (tt, f s)

-- A write to the fields of one symbol.
unfoldable pub set : Sym → (UserSymbol → UserSymbol) → M (Unit {0})
unfolding write
set x f = write (λ s. update s x f)

unfoldable pub when : Bool → M (Unit {0}) → M (Unit {0})
unfolding pure
when b m = if b then m else pure tt
