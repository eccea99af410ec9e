-- ===== src/Registry.antt =====
-- The registered translators of the engine: vendorRegistries, vendorPrefixes and NewEngine of
-- internal/conversion/engine.go.
pub mod Nginx
pub mod Certmanager
pub mod Appgw
pub mod Alb
use transfergw.Base.{String, Bool, true, false, ◌||◌, List, [], ◌∷◌}
use transfergw.Base.Dict.{Dict, insert}
use transfergw.Base.Text.{has_prefix}
use transfergw.Translator.{Translator, nginx_prefix}

vendor_registries : List (Dict Translator)
unfolding Nginx.translators Certmanager.translators Appgw.translators Alb.translators
vendor_registries =
    Nginx.translators ∷ Certmanager.translators ∷ Appgw.translators ∷ Alb.translators ∷ []

abbrev pub vendor_prefixes : List String
vendor_prefixes =
    nginx_prefix ∷ Certmanager.certmanager_prefix ∷ Appgw.appgw_prefix ∷ Alb.alb_prefix ∷ []

any_prefix : String → List String → Bool
unfolding has_prefix
any_prefix annotation [] = false
any_prefix annotation (p ∷ ps) = has_prefix annotation p || any_prefix annotation ps

unfoldable pub is_known_vendor_prefix : String → Bool
unfolding any_prefix
is_known_vendor_prefix annotation = any_prefix annotation vendor_prefixes

-- RegisterTranslator for every entry of a registry.
register_all : Dict Translator → Dict Translator → Dict Translator
unfolding insert
register_all [] engine = engine
register_all ((annotation, t) ∷ rest) engine = register_all rest (insert annotation t engine)

register_registries : List (Dict Translator) → Dict Translator → Dict Translator
unfolding register_all
register_registries [] engine = engine
register_registries (r ∷ rs) engine = register_registries rs (register_all r engine)

-- The map of a new engine.
unfoldable pub new_engine : Dict Translator
unfolding register_registries vendor_registries
new_engine = register_registries vendor_registries []
