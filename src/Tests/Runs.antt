-- ===== src/Tests/Runs.antt =====
-- Runs of the tracker's model on inputs that can be followed in the source.
use peer_to_peer_file_sharin.Prelude.{◌≡◌, refl, [], ◌∷◌, none, some, pos, negsuc}
use peer_to_peer_file_sharin.Bytes.{lit}
use peer_to_peer_file_sharin.Common.Message.{split_args, parse_ll, parse_int}
use peer_to_peer_file_sharin.Bytes.Decimal.{to_string}

split_run : split_args (lit "  login a\tb \n") ≡ lit "login" ∷ lit "a" ∷ lit "b" ∷ []
unfolding split_args lit
split_run = refl

parse_run :
    (parse_ll (lit "-12") ≡ some (negsuc 11))
    × (parse_ll (lit "12abc") ≡ none)
    × (parse_ll (lit "9223372036854775808") ≡ none)
    × (parse_ll (lit "") ≡ none)
    × (parse_int (lit "2147483648") ≡ none)
    × (parse_int (lit "+7") ≡ some (pos 7))
unfolding parse_ll parse_int lit
parse_run = (refl, refl, refl, refl, refl, refl)

decimal_run : to_string 524288 ≡ lit "524288"
unfolding to_string lit
decimal_run = refl
