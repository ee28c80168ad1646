-- ===== src/Keyboard/Scancode/Keymap.antt =====
-- k-devices.cc: `keymap` and `complex_keymap`, each with a row of 16 keys, or one key, to a line.
use pug_os.Prelude.{ℕ, ◌+◌, List, [], ◌∷◌}

abbrev pub key_shift : ℕ
key_shift = 250

abbrev pub key_capslock : ℕ
key_capslock = 253

abbrev pub ckey : ℕ → ℕ
ckey n = 128 + n

abbrev pub keymap : List ℕ
keymap =
    0 ∷ 27 ∷ 128 ∷ 129 ∷ 130 ∷ 131 ∷ 132 ∷ 133 ∷ 134 ∷ 135 ∷ 136 ∷ 137 ∷ 138 ∷ 139 ∷ 8 ∷ 9 ∷ 113
    ∷ 119 ∷ 101 ∷ 114 ∷ 116 ∷ 121 ∷ 117 ∷ 105 ∷ 111 ∷ 112 ∷ 140 ∷ 141 ∷ 142 ∷ 251 ∷ 97 ∷ 115 ∷ 100
    ∷ 102 ∷ 103 ∷ 104 ∷ 106 ∷ 107 ∷ 108 ∷ 143 ∷ 144 ∷ 145 ∷ 250 ∷ 146 ∷ 122 ∷ 120 ∷ 99 ∷ 118 ∷ 98
    ∷ 110 ∷ 109 ∷ 147 ∷ 148 ∷ 149 ∷ 250 ∷ 42 ∷ 252 ∷ 32 ∷ 253 ∷ 0 ∷ 0 ∷ 0 ∷ 0 ∷ 0 ∷ 0 ∷ 0 ∷ 0 ∷ 0
    ∷ 0 ∷ 254 ∷ 255 ∷ 55 ∷ 56 ∷ 57 ∷ 45 ∷ 52 ∷ 53 ∷ 54 ∷ 43 ∷ 49 ∷ 50 ∷ 51 ∷ 48 ∷ 46 ∷ 0 ∷ 0 ∷ 0 ∷ 0
    ∷ 0 ∷ 0 ∷ 0 ∷ 0 ∷ 0 ∷ 0 ∷ 0 ∷ 0 ∷ 0 ∷ 0 ∷ 0 ∷ 0 ∷ 0 ∷ 0 ∷ 0 ∷ 0 ∷ 0 ∷ 0 ∷ 0 ∷ 0 ∷ 0 ∷ 0 ∷ 0 ∷ 0
    ∷ 0 ∷ 0 ∷ 0 ∷ 0 ∷ 0 ∷ 0 ∷ 0 ∷ 0 ∷ 0 ∷ 0 ∷ 0 ∷ 0 ∷ 0 ∷ 0 ∷ 0 ∷ 0 ∷ 0 ∷ 0 ∷ 0 ∷ 0 ∷ 0 ∷ 0 ∷ 0 ∷ 0
    ∷ 0 ∷ 0 ∷ 0 ∷ 0 ∷ 0 ∷ 0 ∷ 0 ∷ 0 ∷ 0 ∷ 0 ∷ 0 ∷ 0 ∷ 0 ∷ 0 ∷ 0 ∷ 0 ∷ 0 ∷ 0 ∷ 0 ∷ 0 ∷ 142 ∷ 251 ∷ 0
    ∷ 0 ∷ 0 ∷ 0 ∷ 0 ∷ 0 ∷ 0 ∷ 0 ∷ 0 ∷ 0 ∷ 0 ∷ 0 ∷ 0 ∷ 0 ∷ 0 ∷ 0 ∷ 0 ∷ 0 ∷ 0 ∷ 0 ∷ 0 ∷ 0 ∷ 0 ∷ 47 ∷ 0
    ∷ 0 ∷ 252 ∷ 0 ∷ 0 ∷ 0 ∷ 0 ∷ 0 ∷ 0 ∷ 0 ∷ 0 ∷ 0 ∷ 0 ∷ 0 ∷ 0 ∷ 0 ∷ 0 ∷ 196 ∷ 192 ∷ 198 ∷ 0 ∷ 195
    ∷ 0 ∷ 193 ∷ 0 ∷ 197 ∷ 194 ∷ 199 ∷ 200 ∷ 201 ∷ 0 ∷ 0 ∷ 0 ∷ 0 ∷ 0 ∷ 0 ∷ 0 ∷ 0 ∷ 0 ∷ 0 ∷ 0 ∷ 0 ∷ 0
    ∷ 0 ∷ 0 ∷ 0 ∷ 0 ∷ 0 ∷ 0 ∷ 0 ∷ 0 ∷ 0 ∷ 0 ∷ 0 ∷ 0 ∷ 0 ∷ 0 ∷ 0 ∷ 0 ∷ 0 ∷ 0 ∷ 0 ∷ 0 ∷ 0 ∷ 0 ∷ 0 ∷ 0
    ∷ 0 ∷ 0 ∷ 0 ∷ 0 ∷ 0 ∷ 0 ∷ 0 ∷ []

abbrev pub complex_keymap : List (List ℕ)
complex_keymap =
    (49 ∷ 33 ∷ 0 ∷ 0 ∷ [])
    ∷ (50 ∷ 64 ∷ 0 ∷ 0 ∷ [])
    ∷ (51 ∷ 35 ∷ 0 ∷ 0 ∷ [])
    ∷ (52 ∷ 36 ∷ 0 ∷ 0 ∷ [])
    ∷ (53 ∷ 37 ∷ 0 ∷ 0 ∷ [])
    ∷ (54 ∷ 94 ∷ 0 ∷ 30 ∷ [])
    ∷ (55 ∷ 38 ∷ 0 ∷ 0 ∷ [])
    ∷ (56 ∷ 42 ∷ 0 ∷ 0 ∷ [])
    ∷ (57 ∷ 40 ∷ 0 ∷ 0 ∷ [])
    ∷ (48 ∷ 41 ∷ 0 ∷ 0 ∷ [])
    ∷ (45 ∷ 95 ∷ 0 ∷ 31 ∷ [])
    ∷ (61 ∷ 43 ∷ 0 ∷ 0 ∷ [])
    ∷ (91 ∷ 123 ∷ 27 ∷ 0 ∷ [])
    ∷ (93 ∷ 125 ∷ 29 ∷ 0 ∷ [])
    ∷ (10 ∷ 10 ∷ 13 ∷ 13 ∷ [])
    ∷ (59 ∷ 58 ∷ 0 ∷ 0 ∷ [])
    ∷ (39 ∷ 34 ∷ 0 ∷ 0 ∷ [])
    ∷ (96 ∷ 126 ∷ 0 ∷ 0 ∷ [])
    ∷ (92 ∷ 124 ∷ 28 ∷ 0 ∷ [])
    ∷ (44 ∷ 60 ∷ 0 ∷ 0 ∷ [])
    ∷ (46 ∷ 62 ∷ 0 ∷ 0 ∷ [])
    ∷ (47 ∷ 63 ∷ 0 ∷ 0 ∷ [])
    ∷ []
