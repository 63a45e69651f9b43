-- ===== src/Generator/Keys.antt =====
-- The three key pairs of `public_key_gen` of src/generator/tx_generator.rs: seeds and public keys.
use bitcoin_client.Prelude.{ℕ, List, [], ◌∷◌}

abbrev pub seed_0 : List ℕ
seed_0 =
    170 ∷ 198 ∷ 160 ∷ 55 ∷ 21 ∷ 215 ∷ 83 ∷ 160 ∷ 218 ∷ 153 ∷ 104 ∷ 161 ∷ 171 ∷ 46 ∷ 231 ∷ 16 ∷ 115
    ∷ 149 ∷ 153 ∷ 157 ∷ 146 ∷ 187 ∷ 2 ∷ 141 ∷ 138 ∷ 244 ∷ 55 ∷ 68 ∷ 71 ∷ 78 ∷ 4 ∷ 1 ∷ []

abbrev pub public_0 : List ℕ
public_0 =
    167 ∷ 118 ∷ 242 ∷ 247 ∷ 107 ∷ 163 ∷ 88 ∷ 96 ∷ 208 ∷ 76 ∷ 251 ∷ 97 ∷ 35 ∷ 221 ∷ 125 ∷ 212 ∷ 25
    ∷ 248 ∷ 240 ∷ 220 ∷ 56 ∷ 198 ∷ 207 ∷ 66 ∷ 47 ∷ 188 ∷ 213 ∷ 56 ∷ 32 ∷ 129 ∷ 57 ∷ 116 ∷ []

abbrev pub seed_1 : List ℕ
seed_1 =
    127 ∷ 161 ∷ 84 ∷ 74 ∷ 54 ∷ 20 ∷ 191 ∷ 118 ∷ 254 ∷ 99 ∷ 103 ∷ 23 ∷ 129 ∷ 198 ∷ 73 ∷ 14 ∷ 33 ∷ 169
    ∷ 126 ∷ 210 ∷ 18 ∷ 67 ∷ 113 ∷ 8 ∷ 123 ∷ 98 ∷ 69 ∷ 170 ∷ 180 ∷ 114 ∷ 220 ∷ 198 ∷ []

abbrev pub public_1 : List ℕ
public_1 =
    189 ∷ 116 ∷ 32 ∷ 60 ∷ 122 ∷ 40 ∷ 215 ∷ 222 ∷ 99 ∷ 224 ∷ 46 ∷ 75 ∷ 219 ∷ 124 ∷ 186 ∷ 79 ∷ 224
    ∷ 51 ∷ 69 ∷ 110 ∷ 252 ∷ 232 ∷ 98 ∷ 72 ∷ 30 ∷ 223 ∷ 101 ∷ 242 ∷ 51 ∷ 192 ∷ 103 ∷ 204 ∷ []

abbrev pub seed_2 : List ℕ
seed_2 =
    232 ∷ 88 ∷ 188 ∷ 195 ∷ 19 ∷ 139 ∷ 60 ∷ 125 ∷ 149 ∷ 44 ∷ 23 ∷ 71 ∷ 187 ∷ 161 ∷ 140 ∷ 242 ∷ 127
    ∷ 134 ∷ 7 ∷ 231 ∷ 186 ∷ 229 ∷ 199 ∷ 149 ∷ 43 ∷ 90 ∷ 73 ∷ 77 ∷ 241 ∷ 106 ∷ 130 ∷ 83 ∷ []

abbrev pub public_2 : List ℕ
public_2 =
    37 ∷ 129 ∷ 201 ∷ 245 ∷ 27 ∷ 55 ∷ 64 ∷ 221 ∷ 124 ∷ 172 ∷ 187 ∷ 105 ∷ 30 ∷ 65 ∷ 152 ∷ 149 ∷ 5
    ∷ 223 ∷ 134 ∷ 224 ∷ 162 ∷ 45 ∷ 147 ∷ 203 ∷ 217 ∷ 245 ∷ 39 ∷ 196 ∷ 59 ∷ 215 ∷ 2 ∷ 214 ∷ []
