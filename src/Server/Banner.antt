-- ===== src/Server/Banner.antt =====
-- banner and metricsDesc of internal/server/server.go: what the server prints when it starts.
use secretstash.Base.{[], ◌∷◌, ◌++◌, Bool, true, false, not, Bytes, if◌then◌else◌}
use secretstash.Base.Text.{ascii, line}
use secretstash.Server.{Config}

unfoldable pub metrics_desc : Bool → Bytes
metrics_desc no_metrics =
    if no_metrics
    then ascii "disabled"
    else ascii "/metrics (unauthenticated; restrict at the network level)"

-- %v of a bool
abbrev pub print_bool : Bool → Bytes
print_bool true = ascii "true"
print_bool false = ascii "false"

unfoldable pub banner : Config → Bytes → Bytes → Bytes → Bytes
unfolding metrics_desc
banner cfg scheme description version =
    line (ascii "secretstash " ++ version)
    ++ (10
        ∷ (line (ascii "  listening: " ++ (scheme ++ (ascii "://" ++ cfg.listen)))
            ++ (line (ascii "  web UI:    " ++ print_bool (not cfg.no_ui))
                ++ (line (ascii "  metrics:   " ++ metrics_desc cfg.no_metrics)
                    ++ (line (
                          ascii
                            "  storage:   in-memory only; ALL SECRETS ARE LOST ON RESTART (by design)")
                        ++ (line (ascii "  " ++ description)
                            ++ (10
                                ∷ (if cfg.dev
                                    then line (
                                        ascii
                                          "  WARNING: --dev mode serves PLAINTEXT HTTP. Do not use in production.")
                                      ++ 10 ∷ []
                                    else []))))))))
