-- ===== src/PageSize/Tests.antt =====
-- Runs with the default huge page and gigantic pages.
use vec.Base.{refl, true, arith}
use vec.Build.{Config, IsBuilt}
use vec.PageSize.{mapped_size}
use vec.PageSize.Laws.{IsRounded, unit, mapped_size-IsRounded}

abbrev giant : Config
giant = record { huge_page = 262144; mmap = true; giant_pages = true; thp = true }

giant-IsBuilt : IsBuilt giant
giant-IsBuilt = record { bits = 18; power = refl; least = omega arith; most = omega arith }

mapped_size-IsRounded_example :
    IsRounded (unit giant 1073741825) 1073741825 (mapped_size giant 1073741825)
mapped_size-IsRounded_example =
    mapped_size-IsRounded giant-IsBuilt 1073741825 (omega arith) (omega arith)
