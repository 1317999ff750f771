-- ===== src/Tests/Database.antt =====
-- Writes to the database.
use n2vc.Prelude.{some}
use n2vc.Exception.{other}
use n2vc.Text.{codes}
use n2vc.Database.{DbDict, Answers}

abbrev failing : Answers
failing calls c = some other

abbrev d : DbDict
d = record { collection = some "nsrs"; filter = some "_id=1"; path = some (codes "vca.0") }
