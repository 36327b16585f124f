-- ===== src/Net/Checksum/Tests.antt =====
-- The checksum of a message of six bytes with its checksum in the middle.
use johnbeauty_os.Prelude.{ℕ, List, [], ◌∷◌}

abbrev front : List ℕ
front = 0x45 ∷ 0x00 ∷ []

abbrev back : List ℕ
back = 0xFF ∷ 0xFF ∷ []
