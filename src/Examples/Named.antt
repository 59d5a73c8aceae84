-- ===== src/Examples/Named.antt =====
-- The theorem on identity/names.ts for one name.
use the_room_backend.Base.{◌≡◌, true, arith}
use the_room_backend.Identity.Names.{is_public_name, generate_public_name}
use the_room_backend.Identity.Names.Pattern.{is_public_name-generate_public_name}

is_public_name-generate_public_name_example : is_public_name (generate_public_name 66 3 8041) ≡ true
is_public_name-generate_public_name_example =
    is_public_name-generate_public_name 66 3 8041 (omega arith) (omega arith) (omega arith)
