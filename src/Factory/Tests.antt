-- ===== src/Factory/Tests.antt =====
-- The factory's theorems at two registered types, with texts for configurations and parsers.
use job_parser.Base.{String, ◌≡◌, refl, none, some, List, [], ◌∷◌, inl}
use job_parser.Base.Dict.{lookup, insert}
use job_parser.Base.Error.{message, wrap}
use job_parser.Factory.{parser_type_hh, parser_type_sj, register, create, create_enabled}
use job_parser.Factory.Laws.{Entry, registered, last_made}

abbrev entries : List (Entry String String)
entries =
    (parser_type_sj, "sj.ru", λ c. c)
    ∷ (parser_type_hh, "hh.ru", λ c. c)
    ∷ (parser_type_sj, "old", λ c. c)
    ∷ []

abbrev pick : String → String
pick t = elim (last_made t entries) [ none ↦ "" | some p ↦ p ]

unknown_type :
    create_enabled ("hh" ∷ "avito" ∷ []) (registered entries)
    ≡ inl (wrap "failed to create parser avito: " (message "parser type not registered: avito") "")
unfolding create_enabled create register lookup insert
unknown_type = refl
