-- ===== src/Build/Tests.antt =====
-- Runs of the build script.
use vec.Base.{◌≡◌, refl, [], ◌∷◌, some, true, false}
use vec.Build.{Config, IsBuilt, wrote, checked, main, parse_unsigned, parse_digits}
use vec.Build.Laws.{main-IsBuilt}

-- `VEC64_HUGE_PAGE_BYTES=8192`
abbrev built : Config
built = record { huge_page = 8192; mmap = true; giant_pages = false; thp = true }

main_run : main true (some (b'8' ∷ b'1' ∷ b'9' ∷ b'2' ∷ [])) ≡ wrote 8192
unfolding main parse_unsigned parse_digits checked
main_run = refl

main-IsBuilt_example : IsBuilt built
main-IsBuilt_example = main-IsBuilt (some (b'8' ∷ b'1' ∷ b'9' ∷ b'2' ∷ [])) 8192 built main_run refl
