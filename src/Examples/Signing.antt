-- ===== src/Examples/Signing.antt =====
-- did/basic.go: a signature of a DID of 32 bytes, with a key whose signature is the text itself.
use rubixgoplatform.Prelude.{
  ℕ, ◌<◌, subst, some_eq, ◌≡◌, refl, some, List, [], ◌∷◌, ◌++◌, arith, All, true, length,
}
use rubixgoplatform.Prelude.Outcome.{done}
use rubixgoplatform.Nlss.Bits.{
  to_bits_from, convert_to_bit_string, parse_digits, parse_uint8, from_bits_loop,
  convert_bit_string, byte_bits,
}
use rubixgoplatform.Nlss.Bits.RoundTrip.{to_bits-IsBitChar}
use rubixgoplatform.Nlss.Combine.{combine_loop}
use rubixgoplatform.Nlss.Tables.{v4, v8, la, generator}
use rubixgoplatform.Nlss.Share.{
  get_rand_number, gen_array, sum_from, mult_columns, mult_matrix, dot, check_comply, add_mod2,
  secret_row, starts,
}
use rubixgoplatform.Nlss.Tree.{
  convert_string, convert_row, new_interact4tree, add_share, share_loop, check_rows, check_share,
  share_create, share_bytes, get_pvt_share, get_public_share1, gen2_shares,
}
use rubixgoplatform.Util.{
  get_private_positions, int_array_to_str, byte_array_to_int_array, binary_digits, binary_number,
  binary_byte, bitstream_loop, bitstream_to_bytes, hex_value, set_elem?, block_start,
  positions_loop, zeros, random_positions, get_pos,
}
use rubixgoplatform.Util.Dots.{get_pos-combine_loop}
use rubixgoplatform.Util.Signer.{IsHexText}
use rubixgoplatform.Util.Positions.{random_positions_bounds}
use rubixgoplatform.Did.{Crypto, bytes_equal, did_sign, nlss_verify}
use rubixgoplatform.Did.Combined.{bytes_equal_refl}
use rubixgoplatform.Did.Verifies.{nlss_verify-did_sign}
use rubixgoplatform.Did.Signs.{did_sign_total}

abbrev identity : List ℕ
identity =
    3 ∷ 10 ∷ 17 ∷ 24 ∷ 31 ∷ 38 ∷ 45 ∷ 52 ∷ 59 ∷ 66 ∷ 73 ∷ 80 ∷ 87 ∷ 94 ∷ 101 ∷ 108 ∷ 115 ∷ 122 ∷ 129
    ∷ 136 ∷ 143 ∷ 150 ∷ 157 ∷ 164 ∷ 171 ∷ 178 ∷ 185 ∷ 192 ∷ 199 ∷ 206 ∷ 213 ∷ 220 ∷ []

abbrev draws : List ℕ
draws =
    7 ∷ 77 ∷ 52 ∷ 2 ∷ 17 ∷ 10 ∷ 12 ∷ 140 ∷ 148 ∷ 1 ∷ 56 ∷ 184 ∷ 3 ∷ 67 ∷ 109 ∷ 9 ∷ 74 ∷ 190 ∷ 12
    ∷ 129 ∷ 127 ∷ 5 ∷ 63 ∷ 242 ∷ 8 ∷ 22 ∷ 153 ∷ 0 ∷ 232 ∷ 149 ∷ 9 ∷ 217 ∷ 99 ∷ 7 ∷ 78 ∷ 132 ∷ 15
    ∷ 179 ∷ 175 ∷ 2 ∷ 105 ∷ 103 ∷ 14 ∷ 70 ∷ 94 ∷ 3 ∷ 214 ∷ 31 ∷ 9 ∷ 188 ∷ 167 ∷ 10 ∷ 39 ∷ 210 ∷ 2
    ∷ 75 ∷ 98 ∷ 14 ∷ 74 ∷ 69 ∷ 8 ∷ 97 ∷ 81 ∷ 10 ∷ 146 ∷ 4 ∷ 5 ∷ 93 ∷ 185 ∷ 9 ∷ 146 ∷ 49 ∷ 14 ∷ 53
    ∷ 217 ∷ 6 ∷ 29 ∷ 30 ∷ 15 ∷ 149 ∷ 127 ∷ 6 ∷ 122 ∷ 103 ∷ 7 ∷ 112 ∷ 210 ∷ 13 ∷ 113 ∷ 127 ∷ 15 ∷ 48
    ∷ 16 ∷ 1 ∷ 65 ∷ 129 ∷ 10 ∷ 144 ∷ 59 ∷ 12 ∷ 230 ∷ 20 ∷ 15 ∷ 99 ∷ 47 ∷ 15 ∷ 19 ∷ 143 ∷ 6 ∷ 11
    ∷ 202 ∷ 12 ∷ 237 ∷ 199 ∷ 6 ∷ 236 ∷ 80 ∷ 0 ∷ 156 ∷ 131 ∷ 3 ∷ 101 ∷ 195 ∷ 6 ∷ 41 ∷ 169 ∷ 15 ∷ 234
    ∷ 225 ∷ 3 ∷ 125 ∷ 131 ∷ 4 ∷ 10 ∷ 185 ∷ 2 ∷ 196 ∷ 5 ∷ 9 ∷ 214 ∷ 177 ∷ 3 ∷ 234 ∷ 187 ∷ 13 ∷ 106
    ∷ 227 ∷ 9 ∷ 238 ∷ 245 ∷ 11 ∷ 223 ∷ 83 ∷ 8 ∷ 138 ∷ 2 ∷ 13 ∷ 216 ∷ 150 ∷ 0 ∷ 173 ∷ 27 ∷ 9 ∷ 239
    ∷ 225 ∷ 14 ∷ 100 ∷ 72 ∷ 8 ∷ 197 ∷ 185 ∷ 2 ∷ 19 ∷ 206 ∷ 5 ∷ 84 ∷ 190 ∷ 10 ∷ 44 ∷ 153 ∷ 0 ∷ 154
    ∷ 10 ∷ 15 ∷ 169 ∷ 39 ∷ 12 ∷ 225 ∷ 121 ∷ 15 ∷ 180 ∷ 113 ∷ 9 ∷ 94 ∷ 117 ∷ 8 ∷ 47 ∷ 234 ∷ 0 ∷ 39
    ∷ 34 ∷ 9 ∷ 233 ∷ 46 ∷ 8 ∷ 123 ∷ 113 ∷ 15 ∷ 228 ∷ 33 ∷ 4 ∷ 236 ∷ 122 ∷ 2 ∷ 76 ∷ 67 ∷ 1 ∷ 41 ∷ 203
    ∷ 5 ∷ 192 ∷ 49 ∷ 6 ∷ 8 ∷ 162 ∷ 1 ∷ 224 ∷ 147 ∷ 5 ∷ 187 ∷ 76 ∷ 13 ∷ 33 ∷ 41 ∷ 4 ∷ 128 ∷ 210 ∷ 12
    ∷ 43 ∷ 83 ∷ 10 ∷ 43 ∷ 198 ∷ 8 ∷ 224 ∷ 9 ∷ 0 ∷ 59 ∷ 118 ∷ 1 ∷ 210 ∷ 108 ∷ 8 ∷ 148 ∷ 157 ∷ 15
    ∷ 160 ∷ 173 ∷ 10 ∷ 226 ∷ 53 ∷ 1 ∷ 154 ∷ 165 ∷ 9 ∷ 29 ∷ 0 ∷ 2 ∷ 216 ∷ 115 ∷ 8 ∷ 159 ∷ 9 ∷ 1 ∷ 2
    ∷ 244 ∷ 4 ∷ 54 ∷ 184 ∷ 7 ∷ 227 ∷ 176 ∷ 9 ∷ 219 ∷ 198 ∷ 12 ∷ 8 ∷ 88 ∷ 9 ∷ 143 ∷ 144 ∷ 6 ∷ 180
    ∷ 223 ∷ 10 ∷ 44 ∷ 109 ∷ 8 ∷ 84 ∷ 208 ∷ 8 ∷ 71 ∷ 44 ∷ 9 ∷ 172 ∷ 67 ∷ 10 ∷ 22 ∷ 84 ∷ 15 ∷ 195 ∷ 58
    ∷ 10 ∷ 2 ∷ 233 ∷ 7 ∷ 132 ∷ 48 ∷ 3 ∷ 204 ∷ 161 ∷ 2 ∷ 169 ∷ 91 ∷ 0 ∷ 193 ∷ 92 ∷ 6 ∷ 67 ∷ 17 ∷ 10
    ∷ 161 ∷ 168 ∷ 8 ∷ 180 ∷ 252 ∷ 3 ∷ 216 ∷ 102 ∷ 4 ∷ 100 ∷ 245 ∷ 15 ∷ 138 ∷ 165 ∷ 5 ∷ 39 ∷ 183 ∷ 11
    ∷ 47 ∷ 108 ∷ 0 ∷ 6 ∷ 60 ∷ 15 ∷ 10 ∷ 156 ∷ 12 ∷ 41 ∷ 71 ∷ 14 ∷ 178 ∷ 69 ∷ 6 ∷ 29 ∷ 169 ∷ 2 ∷ 123
    ∷ 82 ∷ 10 ∷ 153 ∷ 10 ∷ 7 ∷ 204 ∷ 70 ∷ 9 ∷ 59 ∷ 222 ∷ 10 ∷ 138 ∷ 190 ∷ 5 ∷ 186 ∷ 176 ∷ 11 ∷ 66
    ∷ 171 ∷ 2 ∷ 226 ∷ 100 ∷ 2 ∷ 181 ∷ 24 ∷ 9 ∷ 121 ∷ 143 ∷ 1 ∷ 0 ∷ 177 ∷ 9 ∷ 50 ∷ 100 ∷ 1 ∷ 176 ∷ 31
    ∷ 2 ∷ 35 ∷ 223 ∷ 4 ∷ 228 ∷ 53 ∷ 2 ∷ 154 ∷ 2 ∷ 5 ∷ 11 ∷ 139 ∷ 11 ∷ 194 ∷ 78 ∷ 11 ∷ 137 ∷ 233 ∷ 5
    ∷ 123 ∷ 13 ∷ 6 ∷ 66 ∷ 231 ∷ 10 ∷ 24 ∷ 119 ∷ 5 ∷ 112 ∷ 49 ∷ 9 ∷ 8 ∷ 2 ∷ 1 ∷ 221 ∷ 1 ∷ 5 ∷ 57
    ∷ 125 ∷ 12 ∷ 61 ∷ 226 ∷ 10 ∷ 202 ∷ 22 ∷ 3 ∷ 47 ∷ 28 ∷ 13 ∷ 1 ∷ 200 ∷ 5 ∷ 111 ∷ 22 ∷ 7 ∷ 95 ∷ 175
    ∷ 3 ∷ 194 ∷ 193 ∷ 6 ∷ 125 ∷ 180 ∷ 13 ∷ 141 ∷ 46 ∷ 12 ∷ 40 ∷ 44 ∷ 3 ∷ 32 ∷ 65 ∷ 14 ∷ 112 ∷ 178
    ∷ 13 ∷ 81 ∷ 205 ∷ 3 ∷ 204 ∷ 174 ∷ 15 ∷ 111 ∷ 188 ∷ 7 ∷ 147 ∷ 83 ∷ 13 ∷ 72 ∷ 63 ∷ 10 ∷ 136 ∷ 18
    ∷ 7 ∷ 157 ∷ 94 ∷ 15 ∷ 59 ∷ 181 ∷ 13 ∷ 112 ∷ 213 ∷ 15 ∷ 225 ∷ 143 ∷ 6 ∷ 36 ∷ 170 ∷ 15 ∷ 197 ∷ 69
    ∷ 15 ∷ 89 ∷ 16 ∷ 13 ∷ 65 ∷ 95 ∷ 5 ∷ 216 ∷ 9 ∷ 14 ∷ 175 ∷ 156 ∷ 4 ∷ 11 ∷ 1 ∷ 7 ∷ 197 ∷ 174 ∷ 2
    ∷ 9 ∷ 225 ∷ 7 ∷ 121 ∷ 32 ∷ 5 ∷ 44 ∷ 100 ∷ 8 ∷ 146 ∷ 207 ∷ 4 ∷ 181 ∷ 173 ∷ 3 ∷ 157 ∷ 128 ∷ 12
    ∷ 17 ∷ 105 ∷ 7 ∷ 12 ∷ 250 ∷ 12 ∷ 93 ∷ 35 ∷ 2 ∷ 216 ∷ 75 ∷ 14 ∷ 180 ∷ 219 ∷ 12 ∷ 234 ∷ 55 ∷ 5
    ∷ 161 ∷ 233 ∷ 15 ∷ 218 ∷ 225 ∷ 7 ∷ 218 ∷ 128 ∷ 8 ∷ 146 ∷ 3 ∷ 9 ∷ 201 ∷ 61 ∷ 6 ∷ 143 ∷ 36 ∷ 2
    ∷ 207 ∷ 156 ∷ 6 ∷ 29 ∷ 130 ∷ 12 ∷ 69 ∷ 139 ∷ 11 ∷ 153 ∷ 83 ∷ 15 ∷ 153 ∷ 175 ∷ 6 ∷ 217 ∷ 251 ∷ 10
    ∷ 32 ∷ 87 ∷ 14 ∷ 93 ∷ 167 ∷ 2 ∷ 206 ∷ 235 ∷ 14 ∷ 21 ∷ 137 ∷ 11 ∷ 191 ∷ 50 ∷ 12 ∷ 123 ∷ 91 ∷ 10
    ∷ 111 ∷ 106 ∷ 15 ∷ 85 ∷ 131 ∷ 1 ∷ 180 ∷ 205 ∷ 13 ∷ 205 ∷ 190 ∷ 7 ∷ 89 ∷ 224 ∷ 11 ∷ 101 ∷ 13 ∷ 12
    ∷ 188 ∷ 65 ∷ 4 ∷ 120 ∷ 208 ∷ 8 ∷ 196 ∷ 86 ∷ 14 ∷ 135 ∷ 185 ∷ 4 ∷ 16 ∷ 252 ∷ 6 ∷ 196 ∷ 1 ∷ 15
    ∷ 42 ∷ 14 ∷ 8 ∷ 142 ∷ 231 ∷ 2 ∷ 162 ∷ 166 ∷ 8 ∷ 138 ∷ 224 ∷ 5 ∷ 226 ∷ 11 ∷ 10 ∷ 64 ∷ 130 ∷ 8
    ∷ 99 ∷ 175 ∷ 1 ∷ 146 ∷ 90 ∷ 3 ∷ 126 ∷ 141 ∷ 12 ∷ 111 ∷ 239 ∷ 15 ∷ 131 ∷ 89 ∷ 8 ∷ 173 ∷ 36 ∷ 14
    ∷ 95 ∷ 177 ∷ 11 ∷ 153 ∷ 38 ∷ 14 ∷ 73 ∷ 213 ∷ 4 ∷ 227 ∷ 130 ∷ 14 ∷ 54 ∷ 103 ∷ 0 ∷ 38 ∷ 162 ∷ 12
    ∷ 84 ∷ 187 ∷ 4 ∷ 20 ∷ 31 ∷ 14 ∷ 171 ∷ 225 ∷ 9 ∷ 118 ∷ 85 ∷ 5 ∷ 57 ∷ 224 ∷ 10 ∷ 39 ∷ 116 ∷ 3 ∷ 10
    ∷ 176 ∷ 2 ∷ 7 ∷ 69 ∷ 4 ∷ 157 ∷ 36 ∷ 5 ∷ 147 ∷ 134 ∷ 10 ∷ 164 ∷ 139 ∷ 14 ∷ 121 ∷ 76 ∷ 3 ∷ 128
    ∷ 161 ∷ 14 ∷ 170 ∷ 132 ∷ 1 ∷ 187 ∷ 226 ∷ 14 ∷ 129 ∷ 242 ∷ 15 ∷ 82 ∷ 22 ∷ 11 ∷ 125 ∷ 16 ∷ []

abbrev private : List ℕ
private =
    56 ∷ 32 ∷ 62 ∷ 52 ∷ 123 ∷ 190 ∷ 35 ∷ 25 ∷ 231 ∷ 247 ∷ 23 ∷ 59 ∷ 41 ∷ 66 ∷ 211 ∷ 216 ∷ 57 ∷ 229
    ∷ 124 ∷ 215 ∷ 151 ∷ 80 ∷ 57 ∷ 108 ∷ 161 ∷ 121 ∷ 9 ∷ 228 ∷ 17 ∷ 220 ∷ 164 ∷ 74 ∷ 86 ∷ 95 ∷ 253
    ∷ 131 ∷ 106 ∷ 86 ∷ 157 ∷ 167 ∷ 81 ∷ 77 ∷ 111 ∷ 185 ∷ 94 ∷ 225 ∷ 20 ∷ 197 ∷ 215 ∷ 13 ∷ 46 ∷ 109
    ∷ 67 ∷ 185 ∷ 14 ∷ 245 ∷ 44 ∷ 38 ∷ 3 ∷ 226 ∷ 164 ∷ 35 ∷ 69 ∷ 86 ∷ 148 ∷ 206 ∷ 41 ∷ 8 ∷ 124 ∷ 101
    ∷ 174 ∷ 99 ∷ 36 ∷ 148 ∷ 111 ∷ 225 ∷ 146 ∷ 134 ∷ 221 ∷ 135 ∷ 225 ∷ 17 ∷ 63 ∷ 239 ∷ 97 ∷ 58 ∷ 61
    ∷ 171 ∷ 239 ∷ 213 ∷ 84 ∷ 12 ∷ 108 ∷ 155 ∷ 25 ∷ 163 ∷ 104 ∷ 166 ∷ 226 ∷ 166 ∷ 180 ∷ 72 ∷ 212 ∷ 71
    ∷ 207 ∷ 229 ∷ 230 ∷ 134 ∷ 207 ∷ 33 ∷ 97 ∷ 63 ∷ 218 ∷ 57 ∷ 4 ∷ 115 ∷ 242 ∷ 7 ∷ 157 ∷ 129 ∷ 39
    ∷ 121 ∷ 176 ∷ 111 ∷ 179 ∷ 207 ∷ 94 ∷ 157 ∷ 133 ∷ 194 ∷ 242 ∷ 113 ∷ 14 ∷ 197 ∷ 179 ∷ 22 ∷ 166
    ∷ 151 ∷ 86 ∷ 19 ∷ 82 ∷ 217 ∷ 32 ∷ 214 ∷ 34 ∷ 249 ∷ 228 ∷ 103 ∷ 235 ∷ 20 ∷ 13 ∷ 167 ∷ 45 ∷ 12
    ∷ 236 ∷ 227 ∷ 48 ∷ 128 ∷ 30 ∷ 225 ∷ 243 ∷ 230 ∷ 225 ∷ 244 ∷ 233 ∷ 92 ∷ 193 ∷ 169 ∷ 221 ∷ 121
    ∷ 64 ∷ 69 ∷ 201 ∷ 224 ∷ 188 ∷ 34 ∷ 89 ∷ 186 ∷ 57 ∷ 232 ∷ 116 ∷ 99 ∷ 148 ∷ 148 ∷ 185 ∷ 100 ∷ 201
    ∷ 213 ∷ 89 ∷ 83 ∷ 247 ∷ 126 ∷ 129 ∷ 99 ∷ 39 ∷ 254 ∷ 238 ∷ 121 ∷ 227 ∷ 96 ∷ 53 ∷ 129 ∷ 238 ∷ 250
    ∷ 239 ∷ 142 ∷ 14 ∷ 41 ∷ 187 ∷ 205 ∷ 207 ∷ 126 ∷ 54 ∷ 174 ∷ 99 ∷ 213 ∷ 45 ∷ 22 ∷ 71 ∷ 180 ∷ 186
    ∷ 104 ∷ 157 ∷ 109 ∷ 171 ∷ 136 ∷ 148 ∷ 147 ∷ 186 ∷ 221 ∷ 29 ∷ 70 ∷ 252 ∷ 96 ∷ 212 ∷ 167 ∷ 160
    ∷ 40 ∷ 243 ∷ 67 ∷ 46 ∷ 142 ∷ 103 ∷ 229 ∷ 55 ∷ 59 ∷ 253 ∷ 199 ∷ 124 ∷ 24 ∷ 180 ∷ 47 ∷ 199 ∷ 16
    ∷ 193 ∷ 70 ∷ []

abbrev public : List ℕ
public =
    52 ∷ 10 ∷ 148 ∷ 184 ∷ 109 ∷ 190 ∷ 127 ∷ 242 ∷ 153 ∷ 149 ∷ 99 ∷ 132 ∷ 175 ∷ 103 ∷ 94 ∷ 31 ∷ 167
    ∷ 210 ∷ 98 ∷ 69 ∷ 81 ∷ 4 ∷ 185 ∷ 49 ∷ 217 ∷ 30 ∷ 127 ∷ 103 ∷ 210 ∷ 127 ∷ 16 ∷ 129 ∷ 59 ∷ 20 ∷ 47
    ∷ 143 ∷ 202 ∷ 199 ∷ 80 ∷ 131 ∷ 195 ∷ 169 ∷ 225 ∷ 131 ∷ 185 ∷ 5 ∷ 177 ∷ 187 ∷ 227 ∷ 245 ∷ 83 ∷ 2
    ∷ 150 ∷ 27 ∷ 225 ∷ 72 ∷ 185 ∷ 206 ∷ 190 ∷ 153 ∷ 10 ∷ 39 ∷ 121 ∷ 113 ∷ 117 ∷ 234 ∷ 34 ∷ 46 ∷ 113
    ∷ 33 ∷ 122 ∷ 67 ∷ 203 ∷ 49 ∷ 162 ∷ 147 ∷ 76 ∷ 41 ∷ 210 ∷ 83 ∷ 198 ∷ 9 ∷ 118 ∷ 108 ∷ 157 ∷ 173
    ∷ 53 ∷ 165 ∷ 0 ∷ 115 ∷ 9 ∷ 244 ∷ 184 ∷ 176 ∷ 198 ∷ 88 ∷ 144 ∷ 223 ∷ 109 ∷ 208 ∷ 44 ∷ 67 ∷ 84
    ∷ 58 ∷ 233 ∷ 48 ∷ 161 ∷ 91 ∷ 92 ∷ 17 ∷ 168 ∷ 252 ∷ 102 ∷ 245 ∷ 165 ∷ 183 ∷ 108 ∷ 60 ∷ 156 ∷ 71
    ∷ 69 ∷ 169 ∷ 82 ∷ 10 ∷ 70 ∷ 222 ∷ 190 ∷ 176 ∷ 171 ∷ 100 ∷ 24 ∷ 143 ∷ 177 ∷ 100 ∷ 31 ∷ 223 ∷ 53
    ∷ 2 ∷ 139 ∷ 78 ∷ 233 ∷ 13 ∷ 231 ∷ 119 ∷ 49 ∷ 2 ∷ 1 ∷ 125 ∷ 226 ∷ 22 ∷ 28 ∷ 200 ∷ 22 ∷ 175 ∷ 193
    ∷ 180 ∷ 46 ∷ 44 ∷ 65 ∷ 178 ∷ 205 ∷ 174 ∷ 188 ∷ 83 ∷ 63 ∷ 18 ∷ 94 ∷ 181 ∷ 213 ∷ 143 ∷ 170 ∷ 69
    ∷ 16 ∷ 95 ∷ 9 ∷ 156 ∷ 1 ∷ 174 ∷ 225 ∷ 32 ∷ 100 ∷ 207 ∷ 173 ∷ 128 ∷ 105 ∷ 250 ∷ 35 ∷ 75 ∷ 219
    ∷ 55 ∷ 233 ∷ 225 ∷ 128 ∷ 3 ∷ 61 ∷ 36 ∷ 156 ∷ 130 ∷ 139 ∷ 83 ∷ 175 ∷ 251 ∷ 87 ∷ 167 ∷ 235 ∷ 137
    ∷ 50 ∷ 91 ∷ 106 ∷ 131 ∷ 205 ∷ 190 ∷ 224 ∷ 13 ∷ 65 ∷ 208 ∷ 86 ∷ 185 ∷ 252 ∷ 1 ∷ 14 ∷ 231 ∷ 166
    ∷ 224 ∷ 11 ∷ 130 ∷ 175 ∷ 90 ∷ 141 ∷ 239 ∷ 89 ∷ 36 ∷ 177 ∷ 38 ∷ 213 ∷ 130 ∷ 103 ∷ 162 ∷ 187 ∷ 31
    ∷ 225 ∷ 85 ∷ 224 ∷ 116 ∷ 176 ∷ 69 ∷ 36 ∷ 134 ∷ 139 ∷ 76 ∷ 161 ∷ 132 ∷ 226 ∷ 242 ∷ 22 ∷ 16 ∷ []

abbrev hash : List ℕ
hash =
    48 ∷ 48 ∷ 49 ∷ 49 ∷ 50 ∷ 50 ∷ 51 ∷ 51 ∷ 52 ∷ 52 ∷ 53 ∷ 53 ∷ 54 ∷ 54 ∷ 55 ∷ 55 ∷ 56 ∷ 56 ∷ 57
    ∷ 57 ∷ 97 ∷ 97 ∷ 98 ∷ 98 ∷ 99 ∷ 99 ∷ 100 ∷ 100 ∷ 101 ∷ 101 ∷ 102 ∷ 102 ∷ 48 ∷ 49 ∷ 50 ∷ 51 ∷ 52
    ∷ 53 ∷ 54 ∷ 55 ∷ 56 ∷ 57 ∷ 97 ∷ 98 ∷ 99 ∷ 100 ∷ 101 ∷ 102 ∷ 102 ∷ 101 ∷ 100 ∷ 99 ∷ 98 ∷ 97 ∷ 57
    ∷ 56 ∷ 55 ∷ 54 ∷ 53 ∷ 52 ∷ 51 ∷ 50 ∷ 49 ∷ 48 ∷ []

abbrev digest : List ℕ
digest =
    48 ∷ 102 ∷ 49 ∷ 101 ∷ 50 ∷ 100 ∷ 51 ∷ 99 ∷ 52 ∷ 98 ∷ 53 ∷ 97 ∷ 54 ∷ 57 ∷ 55 ∷ 56 ∷ 56 ∷ 55 ∷ 57
    ∷ 54 ∷ 97 ∷ 53 ∷ 98 ∷ 52 ∷ 99 ∷ 51 ∷ 100 ∷ 50 ∷ 101 ∷ 49 ∷ 102 ∷ 48 ∷ 48 ∷ 102 ∷ 49 ∷ 101 ∷ 50
    ∷ 100 ∷ 51 ∷ 99 ∷ 52 ∷ 98 ∷ 53 ∷ 97 ∷ 54 ∷ 57 ∷ 55 ∷ 56 ∷ 56 ∷ 55 ∷ 57 ∷ 54 ∷ 97 ∷ 53 ∷ 98 ∷ 52
    ∷ 99 ∷ 51 ∷ 100 ∷ 50 ∷ 101 ∷ 49 ∷ 102 ∷ 48 ∷ []

abbrev stream : List ℕ
stream =
    103 ∷ 33 ∷ 29 ∷ 9 ∷ 38 ∷ 53 ∷ 82 ∷ 7 ∷ 109 ∷ 131 ∷ 46 ∷ 187 ∷ 197 ∷ 94 ∷ 45 ∷ 185 ∷ 185 ∷ 22
    ∷ 94 ∷ 179 ∷ 205 ∷ 67 ∷ 106 ∷ 136 ∷ 129 ∷ 214 ∷ 238 ∷ 164 ∷ 220 ∷ 212 ∷ 218 ∷ 167 ∷ []

abbrev toy : Crypto
toy = record {
  PrivateKey = Unit {0};
  PublicKey = Unit {0};
  sha3_hex = λ m. digest;
  sign = λ k r m. some m;
  verify = λ k m s. bytes_equal m s;
}

gen2_shares-identity : gen2_shares identity draws ≡ some (private, public)
unfolding get_rand_number gen_array sum_from mult_columns mult_matrix dot check_comply add_mod2
    secret_row starts v4 v8 la generator convert_string convert_row new_interact4tree add_share
    share_loop check_rows check_share share_create share_bytes get_pvt_share get_public_share1
    gen2_shares to_bits_from convert_to_bit_string parse_digits parse_uint8 from_bits_loop
    convert_bit_string
gen2_shares-identity = refl

did_sign-identity : did_sign toy (some private) (some tt) 0 hash ≡ done (stream, digest)
unfolding did_sign get_private_positions int_array_to_str byte_array_to_int_array binary_digits
    binary_number binary_byte bitstream_loop bitstream_to_bytes hex_value set_elem? block_start
    positions_loop zeros random_positions
did_sign-identity = refl

law : (r : ℕ) (m s : List ℕ) → toy.sign tt r m ≡ some s → toy.verify tt m s ≡ true
law r m s e = subst (λ z. bytes_equal m z ≡ true) (some_eq e) (bytes_equal_refl m)

nlss_verify-did_sign_example :
    nlss_verify toy (some identity) (some public) (some tt) hash stream digest ≡ done true
nlss_verify-did_sign_example =
    nlss_verify-did_sign toy identity draws hash tt tt 0 law (omega arith) gen2_shares-identity
      did_sign-identity

digest-IsHexText : IsHexText digest
unfolding hex_value
digest-IsHexText = (
  omega arith,
  (
    (0, refl),
    (
      (15, refl),
      (
        (1, refl),
        (
          (14, refl),
          (
            (2, refl),
            (
              (13, refl),
              (
                (3, refl),
                (
                  (12, refl),
                  (
                    (4, refl),
                    (
                      (11, refl),
                      (
                        (5, refl),
                        (
                          (10, refl),
                          (
                            (6, refl),
                            (
                              (9, refl),
                              (
                                (7, refl),
                                (
                                  (8, refl),
                                  (
                                    (8, refl),
                                    (
                                      (7, refl),
                                      (
                                        (9, refl),
                                        (
                                          (6, refl),
                                          (
                                            (10, refl),
                                            (
                                              (5, refl),
                                              (
                                                (11, refl),
                                                (
                                                  (4, refl),
                                                  (
                                                    (12, refl),
                                                    (
                                                      (3, refl),
                                                      (
                                                        (13, refl),
                                                        (
                                                          (2, refl),
                                                          (
                                                            (14, refl),
                                                            (
                                                            (1, refl),
                                                            (
                                                            (15, refl),
                                                            (
                                                            (0, refl),
                                                            (
                                                            (0, refl),
                                                            (
                                                            (15, refl),
                                                            (
                                                            (1, refl),
                                                            (
                                                            (14, refl),
                                                            (
                                                            (2, refl),
                                                            (
                                                            (13, refl),
                                                            (
                                                            (3, refl),
                                                            (
                                                            (12, refl),
                                                            (
                                                            (4, refl),
                                                            (
                                                            (11, refl),
                                                            (
                                                            (5, refl),
                                                            (
                                                            (10, refl),
                                                            (
                                                            (6, refl),
                                                            (
                                                            (9, refl),
                                                            (
                                                            (7, refl),
                                                            (
                                                            (8, refl),
                                                            (
                                                            (8, refl),
                                                            (
                                                            (7, refl),
                                                            (
                                                            (9, refl),
                                                            (
                                                            (6, refl),
                                                            (
                                                            (10, refl),
                                                            (
                                                            (5, refl),
                                                            (
                                                            (11, refl),
                                                            (
                                                            (4, refl),
                                                            (
                                                            (12, refl),
                                                            (
                                                            (3, refl),
                                                            (
                                                            (13, refl),
                                                            (
                                                            (2, refl),
                                                            (
                                                            (14, refl),
                                                            (
                                                            (1, refl),
                                                            ((15, refl), ((0, refl), tt)),
                                                            ),
                                                            ),
                                                            ),
                                                            ),
                                                            ),
                                                            ),
                                                            ),
                                                            ),
                                                            ),
                                                            ),
                                                            ),
                                                            ),
                                                            ),
                                                            ),
                                                            ),
                                                            ),
                                                            ),
                                                            ),
                                                            ),
                                                            ),
                                                            ),
                                                            ),
                                                            ),
                                                            ),
                                                            ),
                                                            ),
                                                            ),
                                                            ),
                                                            ),
                                                            ),
                                                            ),
                                                            ),
                                                            ),
                                                          ),
                                                        ),
                                                      ),
                                                    ),
                                                  ),
                                                ),
                                              ),
                                            ),
                                          ),
                                        ),
                                      ),
                                    ),
                                  ),
                                ),
                              ),
                            ),
                          ),
                        ),
                      ),
                    ),
                  ),
                ),
              ),
            ),
          ),
        ),
      ),
    ),
  ),
)

hash-IsHexText : IsHexText hash
unfolding hex_value
hash-IsHexText = (
  omega arith,
  (
    (0, refl),
    (
      (0, refl),
      (
        (1, refl),
        (
          (1, refl),
          (
            (2, refl),
            (
              (2, refl),
              (
                (3, refl),
                (
                  (3, refl),
                  (
                    (4, refl),
                    (
                      (4, refl),
                      (
                        (5, refl),
                        (
                          (5, refl),
                          (
                            (6, refl),
                            (
                              (6, refl),
                              (
                                (7, refl),
                                (
                                  (7, refl),
                                  (
                                    (8, refl),
                                    (
                                      (8, refl),
                                      (
                                        (9, refl),
                                        (
                                          (9, refl),
                                          (
                                            (10, refl),
                                            (
                                              (10, refl),
                                              (
                                                (11, refl),
                                                (
                                                  (11, refl),
                                                  (
                                                    (12, refl),
                                                    (
                                                      (12, refl),
                                                      (
                                                        (13, refl),
                                                        (
                                                          (13, refl),
                                                          (
                                                            (14, refl),
                                                            (
                                                            (14, refl),
                                                            (
                                                            (15, refl),
                                                            (
                                                            (15, refl),
                                                            (
                                                            (0, refl),
                                                            (
                                                            (1, refl),
                                                            (
                                                            (2, refl),
                                                            (
                                                            (3, refl),
                                                            (
                                                            (4, refl),
                                                            (
                                                            (5, refl),
                                                            (
                                                            (6, refl),
                                                            (
                                                            (7, refl),
                                                            (
                                                            (8, refl),
                                                            (
                                                            (9, refl),
                                                            (
                                                            (10, refl),
                                                            (
                                                            (11, refl),
                                                            (
                                                            (12, refl),
                                                            (
                                                            (13, refl),
                                                            (
                                                            (14, refl),
                                                            (
                                                            (15, refl),
                                                            (
                                                            (15, refl),
                                                            (
                                                            (14, refl),
                                                            (
                                                            (13, refl),
                                                            (
                                                            (12, refl),
                                                            (
                                                            (11, refl),
                                                            (
                                                            (10, refl),
                                                            (
                                                            (9, refl),
                                                            (
                                                            (8, refl),
                                                            (
                                                            (7, refl),
                                                            (
                                                            (6, refl),
                                                            (
                                                            (5, refl),
                                                            (
                                                            (4, refl),
                                                            (
                                                            (3, refl),
                                                            (
                                                            (2, refl),
                                                            ((1, refl), ((0, refl), tt)),
                                                            ),
                                                            ),
                                                            ),
                                                            ),
                                                            ),
                                                            ),
                                                            ),
                                                            ),
                                                            ),
                                                            ),
                                                            ),
                                                            ),
                                                            ),
                                                            ),
                                                            ),
                                                            ),
                                                            ),
                                                            ),
                                                            ),
                                                            ),
                                                            ),
                                                            ),
                                                            ),
                                                            ),
                                                            ),
                                                            ),
                                                            ),
                                                            ),
                                                            ),
                                                            ),
                                                            ),
                                                            ),
                                                            ),
                                                          ),
                                                        ),
                                                      ),
                                                    ),
                                                  ),
                                                ),
                                              ),
                                            ),
                                          ),
                                        ),
                                      ),
                                    ),
                                  ),
                                ),
                              ),
                            ),
                          ),
                        ),
                      ),
                    ),
                  ),
                ),
              ),
            ),
          ),
        ),
      ),
    ),
  ),
)

did_sign_total_example :
    (out : List ℕ × List ℕ) × (did_sign toy (some private) (some tt) 0 hash ≡ done out)
did_sign_total_example =
    did_sign_total toy identity draws hash tt 0 (λ m. digest-IsHexText) (λ r m. (m, refl))
      (omega arith) hash-IsHexText gen2_shares-identity

abbrev starts_found : List ℕ
starts_found =
    1176 ∷ 872 ∷ 1840 ∷ 208 ∷ 456 ∷ 1600 ∷ 1120 ∷ 936 ∷ 1784 ∷ 280 ∷ 400 ∷ 1664 ∷ 1064 ∷ 1008 ∷ 1728
    ∷ 344 ∷ 344 ∷ 1736 ∷ 1008 ∷ 1072 ∷ 1672 ∷ 416 ∷ 288 ∷ 1800 ∷ 952 ∷ 1144 ∷ 1616 ∷ 480 ∷ 232
    ∷ 1872 ∷ 896 ∷ 1208 ∷ []

abbrev positions_found : List ℕ
positions_found =
    1176 ∷ 1177 ∷ 1178 ∷ 1179 ∷ 1180 ∷ 1181 ∷ 1182 ∷ 1183 ∷ 872 ∷ 873 ∷ 874 ∷ 875 ∷ 876 ∷ 877 ∷ 878
    ∷ 879 ∷ 1840 ∷ 1841 ∷ 1842 ∷ 1843 ∷ 1844 ∷ 1845 ∷ 1846 ∷ 1847 ∷ 208 ∷ 209 ∷ 210 ∷ 211 ∷ 212
    ∷ 213 ∷ 214 ∷ 215 ∷ 456 ∷ 457 ∷ 458 ∷ 459 ∷ 460 ∷ 461 ∷ 462 ∷ 463 ∷ 1600 ∷ 1601 ∷ 1602 ∷ 1603
    ∷ 1604 ∷ 1605 ∷ 1606 ∷ 1607 ∷ 1120 ∷ 1121 ∷ 1122 ∷ 1123 ∷ 1124 ∷ 1125 ∷ 1126 ∷ 1127 ∷ 936 ∷ 937
    ∷ 938 ∷ 939 ∷ 940 ∷ 941 ∷ 942 ∷ 943 ∷ 1784 ∷ 1785 ∷ 1786 ∷ 1787 ∷ 1788 ∷ 1789 ∷ 1790 ∷ 1791
    ∷ 280 ∷ 281 ∷ 282 ∷ 283 ∷ 284 ∷ 285 ∷ 286 ∷ 287 ∷ 400 ∷ 401 ∷ 402 ∷ 403 ∷ 404 ∷ 405 ∷ 406 ∷ 407
    ∷ 1664 ∷ 1665 ∷ 1666 ∷ 1667 ∷ 1668 ∷ 1669 ∷ 1670 ∷ 1671 ∷ 1064 ∷ 1065 ∷ 1066 ∷ 1067 ∷ 1068
    ∷ 1069 ∷ 1070 ∷ 1071 ∷ 1008 ∷ 1009 ∷ 1010 ∷ 1011 ∷ 1012 ∷ 1013 ∷ 1014 ∷ 1015 ∷ 1728 ∷ 1729
    ∷ 1730 ∷ 1731 ∷ 1732 ∷ 1733 ∷ 1734 ∷ 1735 ∷ 344 ∷ 345 ∷ 346 ∷ 347 ∷ 348 ∷ 349 ∷ 350 ∷ 351 ∷ 344
    ∷ 345 ∷ 346 ∷ 347 ∷ 348 ∷ 349 ∷ 350 ∷ 351 ∷ 1736 ∷ 1737 ∷ 1738 ∷ 1739 ∷ 1740 ∷ 1741 ∷ 1742
    ∷ 1743 ∷ 1008 ∷ 1009 ∷ 1010 ∷ 1011 ∷ 1012 ∷ 1013 ∷ 1014 ∷ 1015 ∷ 1072 ∷ 1073 ∷ 1074 ∷ 1075
    ∷ 1076 ∷ 1077 ∷ 1078 ∷ 1079 ∷ 1672 ∷ 1673 ∷ 1674 ∷ 1675 ∷ 1676 ∷ 1677 ∷ 1678 ∷ 1679 ∷ 416 ∷ 417
    ∷ 418 ∷ 419 ∷ 420 ∷ 421 ∷ 422 ∷ 423 ∷ 288 ∷ 289 ∷ 290 ∷ 291 ∷ 292 ∷ 293 ∷ 294 ∷ 295 ∷ 1800
    ∷ 1801 ∷ 1802 ∷ 1803 ∷ 1804 ∷ 1805 ∷ 1806 ∷ 1807 ∷ 952 ∷ 953 ∷ 954 ∷ 955 ∷ 956 ∷ 957 ∷ 958 ∷ 959
    ∷ 1144 ∷ 1145 ∷ 1146 ∷ 1147 ∷ 1148 ∷ 1149 ∷ 1150 ∷ 1151 ∷ 1616 ∷ 1617 ∷ 1618 ∷ 1619 ∷ 1620
    ∷ 1621 ∷ 1622 ∷ 1623 ∷ 480 ∷ 481 ∷ 482 ∷ 483 ∷ 484 ∷ 485 ∷ 486 ∷ 487 ∷ 232 ∷ 233 ∷ 234 ∷ 235
    ∷ 236 ∷ 237 ∷ 238 ∷ 239 ∷ 1872 ∷ 1873 ∷ 1874 ∷ 1875 ∷ 1876 ∷ 1877 ∷ 1878 ∷ 1879 ∷ 896 ∷ 897
    ∷ 898 ∷ 899 ∷ 900 ∷ 901 ∷ 902 ∷ 903 ∷ 1208 ∷ 1209 ∷ 1210 ∷ 1211 ∷ 1212 ∷ 1213 ∷ 1214 ∷ 1215 ∷ []

random_positions-identity :
    random_positions toy.sha3_hex true hash (byte_array_to_int_array private)
    ≡ some (starts_found, positions_found)
unfolding get_private_positions int_array_to_str byte_array_to_int_array hex_value set_elem?
    block_start positions_loop zeros random_positions
random_positions-identity = refl

random_positions_bounds_example :
    (length positions_found ≡ 256) × All (λ p. p < 2048) positions_found
random_positions_bounds_example =
    random_positions_bounds toy.sha3_hex true hash (byte_array_to_int_array private)
      random_positions-identity

get_pos-combine_loop_example :
    get_pos (byte_bits 7 ++ byte_bits 9) (byte_bits 5 ++ byte_bits 3)
    ≡ some (combine_loop 2 (byte_bits 7 ++ byte_bits 9) (byte_bits 5 ++ byte_bits 3) [])
get_pos-combine_loop_example =
    get_pos-combine_loop 1 (byte_bits 7 ++ byte_bits 9) (byte_bits 5 ++ byte_bits 3) refl refl
      (to_bits-IsBitChar (7 ∷ 9 ∷ [])) (to_bits-IsBitChar (5 ∷ 3 ∷ []))
