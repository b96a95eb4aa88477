-- ===== src/PageAligned/Tests.antt =====
-- Runs at the default huge page.
use vec.Base.{refl, true, false, arith}
use vec.Build.{Config, IsBuilt}
use vec.PageAligned.{Shape}
use vec.PageAligned.Laws.{Nearest, lengths-Nearest}

abbrev built : Config
built = record { huge_page = 262144; mmap = true; giant_pages = false; thp = true }

built-IsBuilt : IsBuilt built
built-IsBuilt = record { bits = 18; power = refl; least = omega arith; most = omega arith }

abbrev shape : Shape
shape = record { elem = 8; len = 40000; cap = 65536 }

lengths-Nearest_example : Nearest built-IsBuilt refl shape
lengths-Nearest_example = lengths-Nearest built-IsBuilt refl shape (omega arith)

abbrev whole : Shape
whole = record { elem = 8; len = 65536; cap = 65536 }
