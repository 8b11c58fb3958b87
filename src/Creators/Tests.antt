-- ===== src/Creators/Tests.antt =====
-- Two creators of one type.
use v8app.Base.{◌≡◌, refl, none, some, [], codes, ◌+◌}
use v8app.Creators.{register_creator, create_app}

first_stays :
    (create_app
        (λ c. c + 10)
        (codes "app")
        (register_creator (codes "app") 2 (register_creator (codes "app") 1 []))
      ≡ some 11)
    × (create_app (λ c. c + 10) (codes "test") (register_creator (codes "app") 1 []) ≡ none)
unfolding create_app register_creator
first_stays = (refl, refl)
