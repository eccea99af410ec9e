-- ===== src/Registry/Certmanager.antt =====
-- The registered annotations of cert-manager,
-- internal/conversion/annotation/certmanager/certmanager.go.
use transfergw.Base.{String, ◌<>◌, [], ◌∷◌}
use transfergw.Base.Dict.{Dict}
use transfergw.Translator.{Translator, cert_manager}

abbrev pub certmanager_prefix : String
certmanager_prefix = "cert-manager.io/"

unfoldable pub translators : Dict Translator
translators =
    (certmanager_prefix <> "cluster-issuer", cert_manager)
    ∷ (certmanager_prefix <> "issuer", cert_manager)
    ∷ []
