-- ===== src/LocalProfile/Tests.antt =====
-- An input of src/lib/local-profile.ts at a concrete value.
use setup_soldr.Base.{Option, some}
use setup_soldr.Base.{nat_eq, list_eq, option_eq}
use setup_soldr.Base.Text.{Text, text}

abbrev blank : Option Text
blank = some (text " ")
