-- ===== src/TokenAuth/Levels.antt =====
-- token/token_mapping.go: how many tokens a level has.
use rubixgoplatform.Prelude.{ℕ, List, [], ◌∷◌}

-- `TokenMap`, for the levels from 0 to 78 in order.
unfoldable pub token_map : List ℕ
token_map =
    0 ∷ 5000000 ∷ 2425000 ∷ 2188563 ∷ 2188563 ∷ 2079134 ∷ 1975178 ∷ 1876419 ∷ 1782598 ∷ 1693468
    ∷ 1608795 ∷ 1528355 ∷ 1451937 ∷ 1379340 ∷ 1310373 ∷ 1244855 ∷ 1182612 ∷ 1123481 ∷ 1067307
    ∷ 1013942 ∷ 963245 ∷ 915082 ∷ 869328 ∷ 825862 ∷ 784569 ∷ 745340 ∷ 708073 ∷ 672670 ∷ 639036
    ∷ 607084 ∷ 576730 ∷ 547894 ∷ 520499 ∷ 494474 ∷ 469750 ∷ 446263 ∷ 423950 ∷ 402752 ∷ 382615
    ∷ 363484 ∷ 345310 ∷ 328044 ∷ 311642 ∷ 296060 ∷ 281257 ∷ 267194 ∷ 253834 ∷ 241143 ∷ 229085
    ∷ 217631 ∷ 206750 ∷ 196412 ∷ 186592 ∷ 177262 ∷ 168399 ∷ 159979 ∷ 151980 ∷ 144381 ∷ 137162
    ∷ 130304 ∷ 117273 ∷ 105546 ∷ 94992 ∷ 85492 ∷ 76943 ∷ 69249 ∷ 62324 ∷ 56092 ∷ 50482 ∷ 45434
    ∷ 40891 ∷ 36802 ∷ 33121 ∷ 29809 ∷ 26828 ∷ 24146 ∷ 21731 ∷ 19558 ∷ 17602 ∷ []
