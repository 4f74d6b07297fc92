-- ===== src/Examples/Sharing.antt =====
-- nlss/: runs on one byte, and the theorems at them.
use rubixgoplatform.Prelude.{
  ℕ, ◌≡◌, refl, some, none, ◌==◌, if◌then◌else◌, true, List, [], ◌∷◌, ◌++◌, arith, All,
}
use rubixgoplatform.Nlss.Bits.{
  to_bits_from, convert_to_bit_string, parse_digits, parse_uint8, from_bits_loop,
  convert_bit_string, IsByte,
}
use rubixgoplatform.Nlss.Bits.RoundTrip.{convert_bit_string-convert_to_bit_string}
use rubixgoplatform.Nlss.Tables.{v4, v8, la, generator}
use rubixgoplatform.Nlss.Tables.Rows.{row8}
use rubixgoplatform.Nlss.Share.{
  get_rand_number, gen_array, sum_from, mult_columns, mult_matrix, dot, check_comply, SecretShare,
  add_mod2, secret_row, starts,
}
use rubixgoplatform.Nlss.Share.Complies.{Encodes, starts-Encodes}
use rubixgoplatform.Nlss.Share.Termination.{starts_total}
use rubixgoplatform.Nlss.Tree.{
  Interact4Tree, convert_string, convert_row, new_interact4tree, add_share, share_loop, check_rows,
  check_share, share_create, share_bytes, get_pvt_share, get_public_share1, gen2_shares,
}
use rubixgoplatform.Nlss.Tree.Created.{Adds, share_create_checks}
use rubixgoplatform.Nlss.Combine.{
  char_dot, combine_loop, combine2_shares, Shares, two1x2, gen_shares, combine_shares,
  private_share,
}
use rubixgoplatform.Nlss.Combine.Recovers.{combine2_shares-gen2_shares}
use rubixgoplatform.Nlss.Combine.Total.{gen2_shares_total}
use rubixgoplatform.Nlss.Combine.Modes.{
  combine_shares-gen_shares, combine_shares-four_shares, combine_shares-nine_shares, four_shares,
  nine_shares,
}

abbrev draws : List ℕ
draws =
    4 ∷ 145 ∷ 32 ∷ 8 ∷ 30 ∷ 253 ∷ 14 ∷ 120 ∷ 194 ∷ 6 ∷ 24 ∷ 249 ∷ 0 ∷ 228 ∷ 199 ∷ 13 ∷ 155 ∷ 1 ∷ 0
    ∷ 225 ∷ 195 ∷ 6 ∷ 108 ∷ 14 ∷ []

abbrev private : List ℕ
private = 206 ∷ 223 ∷ 25 ∷ 124 ∷ 243 ∷ 3 ∷ 239 ∷ 18 ∷ []

abbrev public : List ℕ
public = 32 ∷ 253 ∷ 194 ∷ 249 ∷ 199 ∷ 1 ∷ 195 ∷ 14 ∷ []

abbrev draws1 : List ℕ
draws1 =
    1 ∷ 23 ∷ 43 ∷ 13 ∷ 163 ∷ 201 ∷ 5 ∷ 60 ∷ 118 ∷ 5 ∷ 228 ∷ 228 ∷ 14 ∷ 167 ∷ 127 ∷ 15 ∷ 168 ∷ 113
    ∷ 10 ∷ 208 ∷ 85 ∷ 8 ∷ 197 ∷ 245 ∷ 9 ∷ 77 ∷ 208 ∷ 15 ∷ 131 ∷ 187 ∷ 3 ∷ 15 ∷ 25 ∷ 8 ∷ 151 ∷ 116
    ∷ 8 ∷ 62 ∷ 107 ∷ 1 ∷ 108 ∷ 16 ∷ 5 ∷ 63 ∷ 12 ∷ 2 ∷ 29 ∷ 34 ∷ 0 ∷ 10 ∷ 10 ∷ 11 ∷ 65 ∷ 65 ∷ 5 ∷ 188
    ∷ 94 ∷ 0 ∷ 98 ∷ 22 ∷ 9 ∷ 86 ∷ 250 ∷ 1 ∷ 230 ∷ 135 ∷ 15 ∷ 57 ∷ 47 ∷ 10 ∷ 214 ∷ 52 ∷ 8 ∷ 67 ∷ 214
    ∷ 0 ∷ 179 ∷ 71 ∷ 1 ∷ 64 ∷ 17 ∷ 3 ∷ 116 ∷ 118 ∷ 14 ∷ 18 ∷ 128 ∷ 2 ∷ 151 ∷ 116 ∷ 8 ∷ 134 ∷ 2 ∷ 4
    ∷ 9 ∷ 196 ∷ 13 ∷ 41 ∷ 56 ∷ 14 ∷ 79 ∷ 194 ∷ 6 ∷ 175 ∷ 107 ∷ 5 ∷ 235 ∷ 48 ∷ 9 ∷ 176 ∷ 190 ∷ 9 ∷ 4
    ∷ 211 ∷ 14 ∷ 15 ∷ 210 ∷ 15 ∷ 118 ∷ 106 ∷ 2 ∷ 1 ∷ 145 ∷ 6 ∷ 29 ∷ 191 ∷ 12 ∷ 183 ∷ 237 ∷ 4 ∷ 192
    ∷ 176 ∷ 12 ∷ 227 ∷ 62 ∷ 8 ∷ 31 ∷ 62 ∷ 1 ∷ 185 ∷ 254 ∷ 9 ∷ 91 ∷ 234 ∷ 4 ∷ 204 ∷ 191 ∷ 13 ∷ 238
    ∷ 251 ∷ 13 ∷ 178 ∷ 43 ∷ 13 ∷ 229 ∷ 34 ∷ 4 ∷ 75 ∷ 199 ∷ 7 ∷ 181 ∷ 168 ∷ 14 ∷ 44 ∷ 146 ∷ 3 ∷ 39
    ∷ 216 ∷ 3 ∷ 84 ∷ 127 ∷ 8 ∷ 43 ∷ 80 ∷ 5 ∷ 100 ∷ 27 ∷ 6 ∷ 103 ∷ 195 ∷ 0 ∷ 80 ∷ 237 ∷ 14 ∷ 166 ∷ 90
    ∷ 3 ∷ 4 ∷ 206 ∷ 6 ∷ 186 ∷ 197 ∷ []

abbrev private1 : List ℕ
private1 =
    22 ∷ 10 ∷ 26 ∷ 169 ∷ 42 ∷ 34 ∷ 18 ∷ 44 ∷ 161 ∷ 29 ∷ 45 ∷ 94 ∷ 189 ∷ 123 ∷ 25 ∷ 44 ∷ 11 ∷ 134
    ∷ 147 ∷ 106 ∷ 172 ∷ 250 ∷ 171 ∷ 40 ∷ 184 ∷ 191 ∷ 75 ∷ 64 ∷ 141 ∷ 146 ∷ 113 ∷ 95 ∷ 142 ∷ 202
    ∷ 221 ∷ 160 ∷ 76 ∷ 245 ∷ 136 ∷ 232 ∷ 49 ∷ 121 ∷ 110 ∷ 155 ∷ 88 ∷ 222 ∷ 201 ∷ 145 ∷ 143 ∷ 88 ∷ 27
    ∷ 81 ∷ 26 ∷ 168 ∷ 183 ∷ 21 ∷ 101 ∷ 210 ∷ 54 ∷ 9 ∷ 84 ∷ 43 ∷ 57 ∷ 161 ∷ []

abbrev public1 : List ℕ
public1 =
    43 ∷ 201 ∷ 118 ∷ 228 ∷ 127 ∷ 113 ∷ 85 ∷ 245 ∷ 208 ∷ 187 ∷ 25 ∷ 116 ∷ 107 ∷ 16 ∷ 12 ∷ 34 ∷ 10
    ∷ 65 ∷ 94 ∷ 22 ∷ 250 ∷ 135 ∷ 47 ∷ 52 ∷ 214 ∷ 71 ∷ 17 ∷ 118 ∷ 128 ∷ 116 ∷ 2 ∷ 196 ∷ 56 ∷ 194
    ∷ 107 ∷ 48 ∷ 190 ∷ 211 ∷ 210 ∷ 106 ∷ 145 ∷ 191 ∷ 237 ∷ 176 ∷ 62 ∷ 62 ∷ 254 ∷ 234 ∷ 191 ∷ 251
    ∷ 43 ∷ 34 ∷ 199 ∷ 168 ∷ 146 ∷ 216 ∷ 127 ∷ 80 ∷ 27 ∷ 195 ∷ 237 ∷ 90 ∷ 206 ∷ 197 ∷ []

abbrev draws2 : List ℕ
draws2 =
    15 ∷ 66 ∷ 119 ∷ 6 ∷ 183 ∷ 240 ∷ 15 ∷ 101 ∷ 77 ∷ 12 ∷ 189 ∷ 7 ∷ 2 ∷ 40 ∷ 21 ∷ 9 ∷ 199 ∷ 15 ∷ 13
    ∷ 101 ∷ 227 ∷ 4 ∷ 224 ∷ 187 ∷ 3 ∷ 9 ∷ 69 ∷ 13 ∷ 199 ∷ 154 ∷ 13 ∷ 129 ∷ 197 ∷ 7 ∷ 231 ∷ 172 ∷ 0
    ∷ 219 ∷ 143 ∷ 5 ∷ 178 ∷ 167 ∷ 3 ∷ 182 ∷ 108 ∷ 2 ∷ 123 ∷ 247 ∷ 2 ∷ 88 ∷ 34 ∷ 0 ∷ 75 ∷ 218 ∷ 1
    ∷ 154 ∷ 23 ∷ 12 ∷ 183 ∷ 169 ∷ 1 ∷ 79 ∷ 3 ∷ 2 ∷ 27 ∷ 16 ∷ 10 ∷ 80 ∷ 184 ∷ 4 ∷ 229 ∷ 193 ∷ 3 ∷ 158
    ∷ 138 ∷ 14 ∷ 90 ∷ 180 ∷ 8 ∷ 188 ∷ 250 ∷ 10 ∷ 194 ∷ 189 ∷ 3 ∷ 197 ∷ 13 ∷ 4 ∷ 79 ∷ 113 ∷ 8 ∷ 61
    ∷ 167 ∷ 5 ∷ 173 ∷ 222 ∷ 3 ∷ 26 ∷ 164 ∷ 10 ∷ 172 ∷ 114 ∷ 14 ∷ 207 ∷ 86 ∷ 2 ∷ 86 ∷ 111 ∷ 14 ∷ 69
    ∷ 115 ∷ 10 ∷ 206 ∷ 93 ∷ 13 ∷ 74 ∷ 138 ∷ 4 ∷ 51 ∷ 2 ∷ 7 ∷ 8 ∷ 233 ∷ 9 ∷ 139 ∷ 174 ∷ 9 ∷ 30 ∷ 125
    ∷ 13 ∷ 147 ∷ 25 ∷ 5 ∷ 128 ∷ 153 ∷ 11 ∷ 56 ∷ 101 ∷ 7 ∷ 68 ∷ 216 ∷ 0 ∷ 219 ∷ 28 ∷ 4 ∷ 11 ∷ 63 ∷ 15
    ∷ 80 ∷ 80 ∷ 10 ∷ 18 ∷ 179 ∷ 12 ∷ 165 ∷ 199 ∷ 9 ∷ 92 ∷ 135 ∷ 6 ∷ 84 ∷ 219 ∷ 12 ∷ 203 ∷ 40 ∷ 14
    ∷ 4 ∷ 125 ∷ 6 ∷ 137 ∷ 138 ∷ 7 ∷ 109 ∷ 66 ∷ 0 ∷ 239 ∷ 166 ∷ 11 ∷ 229 ∷ 134 ∷ 3 ∷ 118 ∷ 63 ∷ 0
    ∷ 121 ∷ 73 ∷ 7 ∷ 198 ∷ 199 ∷ 10 ∷ 215 ∷ 62 ∷ []

abbrev private2 : List ℕ
private2 =
    208 ∷ 162 ∷ 251 ∷ 96 ∷ 25 ∷ 37 ∷ 200 ∷ 187 ∷ 54 ∷ 112 ∷ 44 ∷ 159 ∷ 233 ∷ 228 ∷ 254 ∷ 176 ∷ 109
    ∷ 79 ∷ 171 ∷ 110 ∷ 92 ∷ 46 ∷ 152 ∷ 161 ∷ 149 ∷ 249 ∷ 54 ∷ 28 ∷ 239 ∷ 6 ∷ 190 ∷ 227 ∷ 32 ∷ 116
    ∷ 68 ∷ 111 ∷ 208 ∷ 16 ∷ 235 ∷ 99 ∷ 96 ∷ 99 ∷ 208 ∷ 56 ∷ 210 ∷ 248 ∷ 33 ∷ 233 ∷ 89 ∷ 194 ∷ 216
    ∷ 27 ∷ 146 ∷ 63 ∷ 115 ∷ 156 ∷ 247 ∷ 28 ∷ 254 ∷ 55 ∷ 66 ∷ 129 ∷ 189 ∷ 41 ∷ []

abbrev public2 : List ℕ
public2 =
    119 ∷ 240 ∷ 77 ∷ 7 ∷ 21 ∷ 15 ∷ 227 ∷ 187 ∷ 69 ∷ 154 ∷ 197 ∷ 172 ∷ 143 ∷ 167 ∷ 108 ∷ 247 ∷ 34
    ∷ 218 ∷ 23 ∷ 169 ∷ 3 ∷ 16 ∷ 184 ∷ 193 ∷ 138 ∷ 180 ∷ 250 ∷ 189 ∷ 13 ∷ 113 ∷ 167 ∷ 222 ∷ 164 ∷ 114
    ∷ 86 ∷ 111 ∷ 115 ∷ 93 ∷ 138 ∷ 2 ∷ 233 ∷ 174 ∷ 125 ∷ 25 ∷ 153 ∷ 101 ∷ 216 ∷ 28 ∷ 63 ∷ 80 ∷ 179
    ∷ 199 ∷ 135 ∷ 219 ∷ 40 ∷ 125 ∷ 138 ∷ 66 ∷ 166 ∷ 134 ∷ 63 ∷ 73 ∷ 199 ∷ 62 ∷ []

gen2_shares-five : gen2_shares (5 ∷ []) draws ≡ some (private, public)
unfolding get_rand_number gen_array sum_from mult_columns mult_matrix dot check_comply add_mod2
    secret_row starts v4 v8 la generator convert_string convert_row new_interact4tree add_share
    share_loop check_rows check_share share_create share_bytes get_pvt_share get_public_share1
    gen2_shares to_bits_from convert_to_bit_string parse_digits parse_uint8 from_bits_loop
    convert_bit_string
gen2_shares-five = refl

gen2_shares-private : gen2_shares private draws1 ≡ some (private1, public1)
unfolding get_rand_number gen_array sum_from mult_columns mult_matrix dot check_comply add_mod2
    secret_row starts v4 v8 la generator convert_string convert_row new_interact4tree add_share
    share_loop check_rows check_share share_create share_bytes get_pvt_share get_public_share1
    gen2_shares to_bits_from convert_to_bit_string parse_digits parse_uint8 from_bits_loop
    convert_bit_string
gen2_shares-private = refl

gen2_shares-public : gen2_shares public draws2 ≡ some (private2, public2)
unfolding get_rand_number gen_array sum_from mult_columns mult_matrix dot check_comply add_mod2
    secret_row starts v4 v8 la generator convert_string convert_row new_interact4tree add_share
    share_loop check_rows check_share share_create share_bytes get_pvt_share get_public_share1
    gen2_shares to_bits_from convert_to_bit_string parse_digits parse_uint8 from_bits_loop
    convert_bit_string
gen2_shares-public = refl

abbrev secret_text : List ℕ
secret_text =
    49 ∷ 49 ∷ 48 ∷ 48 ∷ 49 ∷ 49 ∷ 49 ∷ 48 ∷ 49 ∷ 49 ∷ 48 ∷ 49 ∷ 49 ∷ 49 ∷ 49 ∷ 49 ∷ 48 ∷ 48 ∷ 48
    ∷ 49 ∷ 49 ∷ 48 ∷ 48 ∷ 49 ∷ 48 ∷ 49 ∷ 49 ∷ 49 ∷ 49 ∷ 49 ∷ 48 ∷ 48 ∷ 49 ∷ 49 ∷ 49 ∷ 49 ∷ 48 ∷ 48
    ∷ 49 ∷ 49 ∷ 48 ∷ 48 ∷ 48 ∷ 48 ∷ 48 ∷ 48 ∷ 49 ∷ 49 ∷ 49 ∷ 49 ∷ 49 ∷ 48 ∷ 49 ∷ 49 ∷ 49 ∷ 49 ∷ 48
    ∷ 48 ∷ 48 ∷ 49 ∷ 48 ∷ 48 ∷ 49 ∷ 48 ∷ []

abbrev y1_text : List ℕ
y1_text =
    48 ∷ 48 ∷ 49 ∷ 48 ∷ 48 ∷ 48 ∷ 48 ∷ 48 ∷ 49 ∷ 49 ∷ 49 ∷ 49 ∷ 49 ∷ 49 ∷ 48 ∷ 49 ∷ 49 ∷ 49 ∷ 48
    ∷ 48 ∷ 48 ∷ 48 ∷ 49 ∷ 48 ∷ 49 ∷ 49 ∷ 49 ∷ 49 ∷ 49 ∷ 48 ∷ 48 ∷ 49 ∷ 49 ∷ 49 ∷ 48 ∷ 48 ∷ 48 ∷ 49
    ∷ 49 ∷ 49 ∷ 48 ∷ 48 ∷ 48 ∷ 48 ∷ 48 ∷ 48 ∷ 48 ∷ 49 ∷ 49 ∷ 49 ∷ 48 ∷ 48 ∷ 48 ∷ 48 ∷ 49 ∷ 49 ∷ 48
    ∷ 48 ∷ 48 ∷ 48 ∷ 49 ∷ 49 ∷ 49 ∷ 48 ∷ []

abbrev secret_rows : List (List ℕ)
secret_rows =
    row8 1 1 0 0 1 1 1 0
    ∷ row8 1 1 0 1 1 1 1 1
    ∷ row8 0 0 0 1 1 0 0 1
    ∷ row8 0 1 1 1 1 1 0 0
    ∷ row8 1 1 1 1 0 0 1 1
    ∷ row8 0 0 0 0 0 0 1 1
    ∷ row8 1 1 1 0 1 1 1 1
    ∷ row8 0 0 0 1 0 0 1 0
    ∷ []

abbrev cand_rows : List (List ℕ)
cand_rows =
    row8 0 0 1 0 0 0 0 0
    ∷ row8 1 1 1 1 1 1 0 1
    ∷ row8 1 1 0 0 0 0 1 0
    ∷ row8 1 1 1 1 1 0 0 1
    ∷ row8 1 1 0 0 0 1 1 1
    ∷ row8 0 0 0 0 0 0 0 1
    ∷ row8 1 1 0 0 0 0 1 1
    ∷ row8 0 0 0 0 1 1 1 0
    ∷ []

abbrev tree : Interact4Tree
tree = record {
  secret_string = secret_text;
  y1_string = y1_text;
  bits = convert_to_bit_string (5 ∷ []);
  cand1 = cand_rows;
  secret = secret_rows;
}

share_create-five : share_create (new_interact4tree (5 ∷ [])) draws ≡ some (true, tree, [])
unfolding get_rand_number gen_array sum_from mult_columns mult_matrix dot check_comply add_mod2
    secret_row starts v4 v8 la generator convert_string convert_row new_interact4tree add_share
    share_loop check_rows check_share share_create share_bytes get_pvt_share get_public_share1
    gen2_shares to_bits_from convert_to_bit_string parse_digits parse_uint8 from_bits_loop
    convert_bit_string
share_create-five = refl

abbrev first_share : SecretShare
first_share = record {
  s = 0;
  x1 = 0 ∷ 1 ∷ 0 ∷ 0 ∷ [];
  alpha1 = row8 1 0 0 1 1 0 1 1;
  y1 = row8 0 0 1 0 0 0 0 0;
  s0 = row8 1 1 0 0 1 1 1 0;
}

starts-zero : starts 0 (4 ∷ 145 ∷ 32 ∷ []) ≡ some (first_share, [])
unfolding get_rand_number gen_array sum_from mult_columns mult_matrix dot check_comply add_mod2
    secret_row starts v4 v8 la generator convert_string convert_row new_interact4tree add_share
    share_loop check_rows check_share share_create share_bytes get_pvt_share get_public_share1
    gen2_shares to_bits_from convert_to_bit_string parse_digits parse_uint8 from_bits_loop
    convert_bit_string
starts-zero = refl

-- The candidate of the first draw has the wrong parity: the second one is taken.
starts-zero_again : starts 0 (4 ∷ 145 ∷ 2 ∷ 32 ∷ []) ≡ some (first_share, [])
unfolding get_rand_number gen_array sum_from mult_columns mult_matrix dot check_comply add_mod2
    secret_row starts v4 v8 la generator convert_string convert_row new_interact4tree add_share
    share_loop check_rows check_share share_create share_bytes get_pvt_share get_public_share1
    gen2_shares to_bits_from convert_to_bit_string parse_digits parse_uint8 from_bits_loop
    convert_bit_string
starts-zero_again = refl

abbrev format_two : Shares
format_two = record {
  num_shares = 2;
  mode = two1x2;
  share = λ i.
      if i == 0
      then some (record { share_id = 0; share_type = private_share; share_bytes = private })
      else if i == 1
      then some (record { share_id = 1; share_type = private_share; share_bytes = public })
      else none;
}

gen_shares-five : gen_shares (5 ∷ []) two1x2 draws ≡ some (some format_two)
unfolding gen_shares get_rand_number gen_array sum_from mult_columns mult_matrix dot check_comply
    add_mod2 secret_row starts v4 v8 la generator convert_string convert_row new_interact4tree
    add_share share_loop check_rows check_share share_create share_bytes get_pvt_share
    get_public_share1 gen2_shares to_bits_from convert_to_bit_string parse_digits parse_uint8
    from_bits_loop convert_bit_string
gen_shares-five = refl

IsByte-five : All IsByte (5 ∷ [])
IsByte-five = (omega arith, tt)

convert_bit_string-convert_to_bit_string_example :
    convert_bit_string (convert_to_bit_string (5 ∷ [])) ≡ some (5 ∷ [])
convert_bit_string-convert_to_bit_string_example =
    convert_bit_string-convert_to_bit_string (5 ∷ []) IsByte-five

combine2_shares-gen2_shares_example : combine2_shares private public ≡ some (5 ∷ [])
combine2_shares-gen2_shares_example =
    combine2_shares-gen2_shares (5 ∷ []) draws IsByte-five gen2_shares-five

gen2_shares_total_example :
    (draws : List ℕ) × (z : List ℕ × List ℕ) × (gen2_shares (5 ∷ []) draws ≡ some z)
    × (combine2_shares z.0 z.1 ≡ some (5 ∷ []))
gen2_shares_total_example = gen2_shares_total (5 ∷ []) IsByte-five

starts-Encodes_example : Encodes 0 first_share
starts-Encodes_example = starts-Encodes 0 (4 ∷ 145 ∷ 32 ∷ []) starts-zero

starts_total_example :
    (d : ℕ) × ((k : ℕ) (before after : List ℕ)
      → (r : SecretShare × List ℕ) × (starts 1 (3 ∷ 17 ∷ k ∷ before ++ d ∷ after) ≡ some r))
starts_total_example = starts_total 1 3 17 (omega arith)

share_create_checks_example :
    (true ≡ true) × Adds (convert_to_bit_string (5 ∷ [])) (new_interact4tree (5 ∷ [])) tree
share_create_checks_example = share_create_checks (5 ∷ []) draws share_create-five

combine_shares-gen_shares_example : combine_shares format_two ≡ some (5 ∷ [])
combine_shares-gen_shares_example =
    combine_shares-gen_shares (5 ∷ []) draws IsByte-five gen_shares-five

combine_shares-four_shares_example :
    combine_shares (four_shares (private1, public1) (private2, public2)) ≡ some (5 ∷ [])
combine_shares-four_shares_example =
    combine_shares-four_shares (5 ∷ []) draws draws1 draws2 IsByte-five gen2_shares-five
      gen2_shares-private gen2_shares-public

combine2_shares-five : combine2_shares private public ≡ some (5 ∷ [])
unfolding combine2_shares char_dot combine_loop convert_string to_bits_from convert_to_bit_string
    parse_digits parse_uint8 from_bits_loop convert_bit_string
combine2_shares-five = refl

combine_shares-nine_shares_example :
    combine_shares (
      nine_shares
        (private, public, public)
        (private1, public1, public1)
        (private2, public2, public2))
    ≡ some []
combine_shares-nine_shares_example =
    combine_shares-nine_shares (private, public, public) (private1, public1, public1)
      (private2, public2, public2) 32 5 refl combine2_shares-five
