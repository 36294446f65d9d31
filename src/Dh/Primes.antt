-- ===== src/Dh/Primes.antt =====
-- The primes of openssl-dynamic/src/main/c/sslutils.c, as their bytes.
use netty_tcnative.Base.{ℕ, List, [], ◌∷◌}

unfoldable pub dh512_p : List ℕ
dh512_p =
    0xD9 ∷ 0xBA ∷ 0xBF ∷ 0xFD ∷ 0x69 ∷ 0x38 ∷ 0xC9 ∷ 0x51 ∷ 0x2D ∷ 0x19 ∷ 0x37 ∷ 0x39 ∷ 0xD7 ∷ 0x7D
    ∷ 0x7E ∷ 0x3E ∷ 0x25 ∷ 0x58 ∷ 0x55 ∷ 0x94 ∷ 0x90 ∷ 0x60 ∷ 0x93 ∷ 0x7A ∷ 0xF2 ∷ 0xD5 ∷ 0x61
    ∷ 0x5F ∷ 0x06 ∷ 0xE8 ∷ 0x08 ∷ 0xB4 ∷ 0x57 ∷ 0xF4 ∷ 0xCF ∷ 0xB4 ∷ 0x41 ∷ 0xCC ∷ 0xC4 ∷ 0xAC
    ∷ 0xD4 ∷ 0xF0 ∷ 0x45 ∷ 0x88 ∷ 0xC9 ∷ 0xD1 ∷ 0x21 ∷ 0x4C ∷ 0xB6 ∷ 0x72 ∷ 0x48 ∷ 0xBD ∷ 0x73
    ∷ 0x80 ∷ 0xE0 ∷ 0xDD ∷ 0x88 ∷ 0x41 ∷ 0xA0 ∷ 0xF1 ∷ 0xEA ∷ 0x4B ∷ 0x71 ∷ 0x13 ∷ []

unfoldable pub dh1024_p : List ℕ
dh1024_p =
    0xA2 ∷ 0x95 ∷ 0x7E ∷ 0x7C ∷ 0xA9 ∷ 0xD5 ∷ 0x55 ∷ 0x1D ∷ 0x7C ∷ 0x77 ∷ 0x11 ∷ 0xAC ∷ 0xFD ∷ 0x48
    ∷ 0x8C ∷ 0x3B ∷ 0x94 ∷ 0x1B ∷ 0xC5 ∷ 0xC0 ∷ 0x99 ∷ 0x93 ∷ 0xB5 ∷ 0xDC ∷ 0xDC ∷ 0x06 ∷ 0x76
    ∷ 0x9E ∷ 0xED ∷ 0x1E ∷ 0x3D ∷ 0xBB ∷ 0x9A ∷ 0x29 ∷ 0xD6 ∷ 0x8B ∷ 0x1F ∷ 0xF6 ∷ 0xDA ∷ 0xC9
    ∷ 0xDF ∷ 0xD5 ∷ 0x02 ∷ 0x4F ∷ 0x09 ∷ 0xDE ∷ 0xEC ∷ 0x2C ∷ 0x59 ∷ 0x1E ∷ 0x82 ∷ 0x32 ∷ 0x80
    ∷ 0x9B ∷ 0xED ∷ 0x51 ∷ 0x68 ∷ 0xD2 ∷ 0xFB ∷ 0x1E ∷ 0x25 ∷ 0xDB ∷ 0xDF ∷ 0x9C ∷ 0x11 ∷ 0x70
    ∷ 0xDF ∷ 0xCA ∷ 0x19 ∷ 0x03 ∷ 0x3D ∷ 0x3D ∷ 0xC1 ∷ 0xAC ∷ 0x28 ∷ 0x88 ∷ 0x4F ∷ 0x13 ∷ 0xAF
    ∷ 0x16 ∷ 0x60 ∷ 0x6B ∷ 0x5B ∷ 0x2F ∷ 0x56 ∷ 0xC7 ∷ 0x5B ∷ 0x5D ∷ 0xDE ∷ 0x8F ∷ 0x50 ∷ 0x08
    ∷ 0xEC ∷ 0xB1 ∷ 0xB9 ∷ 0x29 ∷ 0xAA ∷ 0x54 ∷ 0xF4 ∷ 0x05 ∷ 0xC9 ∷ 0xDF ∷ 0x95 ∷ 0x9D ∷ 0x79
    ∷ 0xC6 ∷ 0xEA ∷ 0x3F ∷ 0xC9 ∷ 0x70 ∷ 0x42 ∷ 0xDA ∷ 0x90 ∷ 0xC7 ∷ 0xCC ∷ 0x12 ∷ 0xB9 ∷ 0x87
    ∷ 0x86 ∷ 0x39 ∷ 0x1E ∷ 0x1A ∷ 0xCE ∷ 0xF7 ∷ 0x3F ∷ 0x15 ∷ 0xB5 ∷ 0x2B ∷ []

unfoldable pub dh2048_p : List ℕ
dh2048_p =
    0xF2 ∷ 0x4A ∷ 0xFC ∷ 0x7E ∷ 0x73 ∷ 0x48 ∷ 0x21 ∷ 0x03 ∷ 0xD1 ∷ 0x1D ∷ 0xA8 ∷ 0x16 ∷ 0x87 ∷ 0xD0
    ∷ 0xD2 ∷ 0xDC ∷ 0x42 ∷ 0xA8 ∷ 0xD2 ∷ 0x73 ∷ 0xE3 ∷ 0xA9 ∷ 0x21 ∷ 0x31 ∷ 0x70 ∷ 0x5D ∷ 0x69
    ∷ 0xC7 ∷ 0x8F ∷ 0x95 ∷ 0x0C ∷ 0x9F ∷ 0xB8 ∷ 0x0E ∷ 0x37 ∷ 0xAE ∷ 0xD1 ∷ 0x6F ∷ 0x36 ∷ 0x1C
    ∷ 0x26 ∷ 0x63 ∷ 0x2A ∷ 0x36 ∷ 0xBA ∷ 0x0D ∷ 0x2A ∷ 0xF5 ∷ 0x1A ∷ 0x0F ∷ 0xE8 ∷ 0xC0 ∷ 0xEA
    ∷ 0xD1 ∷ 0xB5 ∷ 0x52 ∷ 0x47 ∷ 0x1F ∷ 0x9A ∷ 0x0C ∷ 0x0F ∷ 0xED ∷ 0x71 ∷ 0x51 ∷ 0xED ∷ 0xE6
    ∷ 0x62 ∷ 0xD5 ∷ 0xF8 ∷ 0x81 ∷ 0x93 ∷ 0x55 ∷ 0xC1 ∷ 0x0F ∷ 0xB4 ∷ 0x72 ∷ 0x64 ∷ 0xB3 ∷ 0x73
    ∷ 0xAA ∷ 0x90 ∷ 0x9A ∷ 0x81 ∷ 0xCE ∷ 0x03 ∷ 0xFD ∷ 0x6D ∷ 0xB1 ∷ 0x27 ∷ 0x7D ∷ 0xE9 ∷ 0x90
    ∷ 0x5E ∷ 0xE2 ∷ 0x10 ∷ 0x74 ∷ 0x4F ∷ 0x94 ∷ 0xC3 ∷ 0x05 ∷ 0x21 ∷ 0x73 ∷ 0xA9 ∷ 0x12 ∷ 0x06
    ∷ 0x9B ∷ 0x0E ∷ 0x20 ∷ 0xD1 ∷ 0x5F ∷ 0xF7 ∷ 0xC9 ∷ 0x4C ∷ 0x9D ∷ 0x4F ∷ 0xFA ∷ 0xCA ∷ 0x4D
    ∷ 0xFD ∷ 0xFF ∷ 0x6A ∷ 0x62 ∷ 0x9F ∷ 0xF0 ∷ 0x0F ∷ 0x3B ∷ 0xA9 ∷ 0x1D ∷ 0xF2 ∷ 0x69 ∷ 0x29
    ∷ 0x00 ∷ 0xBD ∷ 0xE9 ∷ 0xB0 ∷ 0x9D ∷ 0x88 ∷ 0xC7 ∷ 0x4A ∷ 0xAE ∷ 0xB0 ∷ 0x53 ∷ 0xAC ∷ 0xA2
    ∷ 0x27 ∷ 0x40 ∷ 0x88 ∷ 0x58 ∷ 0x8F ∷ 0x26 ∷ 0xB2 ∷ 0xC2 ∷ 0x34 ∷ 0x7D ∷ 0xA2 ∷ 0xCF ∷ 0x92
    ∷ 0x60 ∷ 0x9B ∷ 0x35 ∷ 0xF6 ∷ 0xF3 ∷ 0x3B ∷ 0xC3 ∷ 0xAA ∷ 0xD8 ∷ 0x58 ∷ 0x9C ∷ 0xCF ∷ 0x5D
    ∷ 0x9F ∷ 0xDB ∷ 0x14 ∷ 0x93 ∷ 0xFA ∷ 0xA3 ∷ 0xFA ∷ 0x44 ∷ 0xB1 ∷ 0xB2 ∷ 0x4B ∷ 0x0F ∷ 0x08
    ∷ 0x70 ∷ 0x44 ∷ 0x71 ∷ 0x3A ∷ 0x73 ∷ 0x45 ∷ 0x8E ∷ 0x6D ∷ 0x9C ∷ 0x56 ∷ 0xBC ∷ 0x9A ∷ 0xB5
    ∷ 0xB1 ∷ 0x3D ∷ 0x8B ∷ 0x1F ∷ 0x1E ∷ 0x2B ∷ 0x0E ∷ 0x93 ∷ 0xC2 ∷ 0x9B ∷ 0x84 ∷ 0xE2 ∷ 0xE8
    ∷ 0xFC ∷ 0x29 ∷ 0x85 ∷ 0x83 ∷ 0x8D ∷ 0x2E ∷ 0x5C ∷ 0xDD ∷ 0x9A ∷ 0xBB ∷ 0xFD ∷ 0xF0 ∷ 0x87
    ∷ 0xBF ∷ 0xAF ∷ 0xC4 ∷ 0xB6 ∷ 0x1D ∷ 0xE7 ∷ 0xF9 ∷ 0x46 ∷ 0x50 ∷ 0x7F ∷ 0xC3 ∷ 0xAC ∷ 0xFD
    ∷ 0xC9 ∷ 0x8C ∷ 0x9D ∷ 0x66 ∷ 0x6B ∷ 0x4C ∷ 0x6A ∷ 0xC9 ∷ 0x3F ∷ 0x0C ∷ 0x0A ∷ 0x74 ∷ 0x94
    ∷ 0x41 ∷ 0x85 ∷ 0x26 ∷ 0x8F ∷ 0x9F ∷ 0xF0 ∷ 0x7C ∷ 0x0B ∷ []

unfoldable pub dh4096_p : List ℕ
dh4096_p =
    0x8D ∷ 0xD3 ∷ 0x8F ∷ 0x77 ∷ 0x6F ∷ 0x6F ∷ 0xB0 ∷ 0x74 ∷ 0x3F ∷ 0x22 ∷ 0xE9 ∷ 0xD1 ∷ 0x17 ∷ 0x15
    ∷ 0x69 ∷ 0xD8 ∷ 0x24 ∷ 0x85 ∷ 0xCD ∷ 0xC4 ∷ 0xE4 ∷ 0x0E ∷ 0xF6 ∷ 0x52 ∷ 0x40 ∷ 0xF7 ∷ 0x1C
    ∷ 0x34 ∷ 0xD0 ∷ 0xA5 ∷ 0x20 ∷ 0x77 ∷ 0xE2 ∷ 0xFC ∷ 0x7D ∷ 0xA1 ∷ 0x82 ∷ 0xF1 ∷ 0xF3 ∷ 0x78
    ∷ 0x95 ∷ 0x05 ∷ 0x5B ∷ 0xB8 ∷ 0xDB ∷ 0xB3 ∷ 0xE4 ∷ 0x17 ∷ 0x93 ∷ 0xD6 ∷ 0x68 ∷ 0xA7 ∷ 0x0A
    ∷ 0x0C ∷ 0xC5 ∷ 0xBB ∷ 0x9C ∷ 0x5E ∷ 0x1E ∷ 0x83 ∷ 0x72 ∷ 0xB3 ∷ 0x12 ∷ 0x81 ∷ 0xA2 ∷ 0xF5
    ∷ 0xCD ∷ 0x44 ∷ 0x67 ∷ 0xAA ∷ 0xE8 ∷ 0xAD ∷ 0x1E ∷ 0x8F ∷ 0x26 ∷ 0x25 ∷ 0xF2 ∷ 0x8A ∷ 0xA0
    ∷ 0xA5 ∷ 0xF4 ∷ 0xFB ∷ 0x95 ∷ 0xAE ∷ 0x06 ∷ 0x50 ∷ 0x4B ∷ 0xD0 ∷ 0xE7 ∷ 0x0C ∷ 0x55 ∷ 0x88
    ∷ 0xAA ∷ 0xE6 ∷ 0xB8 ∷ 0xF6 ∷ 0xE9 ∷ 0x2F ∷ 0x8D ∷ 0xA7 ∷ 0xAD ∷ 0x84 ∷ 0xBC ∷ 0x8D ∷ 0x4C
    ∷ 0xFE ∷ 0x76 ∷ 0x60 ∷ 0xCD ∷ 0xC8 ∷ 0xED ∷ 0x7C ∷ 0xBF ∷ 0xF3 ∷ 0xC1 ∷ 0xF8 ∷ 0x6A ∷ 0xED
    ∷ 0xEC ∷ 0xE9 ∷ 0x13 ∷ 0x7D ∷ 0x4E ∷ 0x72 ∷ 0x20 ∷ 0x77 ∷ 0x06 ∷ 0xA4 ∷ 0x12 ∷ 0xF8 ∷ 0xD2
    ∷ 0x34 ∷ 0x6F ∷ 0xDC ∷ 0x97 ∷ 0xAB ∷ 0xD3 ∷ 0xA0 ∷ 0x45 ∷ 0x8E ∷ 0x7D ∷ 0x21 ∷ 0xA9 ∷ 0x35
    ∷ 0x6E ∷ 0xE4 ∷ 0xC9 ∷ 0xC4 ∷ 0x53 ∷ 0xFF ∷ 0xE5 ∷ 0xD9 ∷ 0x72 ∷ 0x61 ∷ 0xC4 ∷ 0x8A ∷ 0x75
    ∷ 0x78 ∷ 0x36 ∷ 0x97 ∷ 0x1A ∷ 0xAB ∷ 0x92 ∷ 0x85 ∷ 0x74 ∷ 0x61 ∷ 0x7B ∷ 0xE0 ∷ 0x92 ∷ 0xB8
    ∷ 0xC6 ∷ 0x12 ∷ 0xA1 ∷ 0x72 ∷ 0xBB ∷ 0x5B ∷ 0x61 ∷ 0xAA ∷ 0xE6 ∷ 0x2C ∷ 0x2D ∷ 0x9F ∷ 0x45
    ∷ 0x79 ∷ 0x9E ∷ 0xF4 ∷ 0x41 ∷ 0x93 ∷ 0x93 ∷ 0xEF ∷ 0x8B ∷ 0xEF ∷ 0xB7 ∷ 0xBF ∷ 0x6D ∷ 0xF0
    ∷ 0x91 ∷ 0x11 ∷ 0x4F ∷ 0x7C ∷ 0x71 ∷ 0x84 ∷ 0xB5 ∷ 0x88 ∷ 0xA3 ∷ 0x8C ∷ 0x1A ∷ 0xD5 ∷ 0xD0
    ∷ 0x81 ∷ 0x9C ∷ 0x50 ∷ 0xAC ∷ 0xA9 ∷ 0x2B ∷ 0xE9 ∷ 0x92 ∷ 0x2D ∷ 0x73 ∷ 0x7C ∷ 0x0A ∷ 0xA3
    ∷ 0xFA ∷ 0xD3 ∷ 0x6C ∷ 0x91 ∷ 0x43 ∷ 0xA6 ∷ 0x80 ∷ 0x7F ∷ 0xD7 ∷ 0xC4 ∷ 0xD8 ∷ 0x6F ∷ 0x85
    ∷ 0xF8 ∷ 0x15 ∷ 0xFD ∷ 0x08 ∷ 0xA6 ∷ 0xF8 ∷ 0x7B ∷ 0x3A ∷ 0xF4 ∷ 0xD3 ∷ 0x50 ∷ 0xB4 ∷ 0x2F
    ∷ 0x75 ∷ 0xC8 ∷ 0x48 ∷ 0xB8 ∷ 0xA8 ∷ 0xFD ∷ 0xCA ∷ 0x8F ∷ 0x62 ∷ 0xF1 ∷ 0x4C ∷ 0x89 ∷ 0xB7
    ∷ 0x18 ∷ 0x67 ∷ 0xB2 ∷ 0x93 ∷ 0x2C ∷ 0xC4 ∷ 0xD4 ∷ 0x71 ∷ 0x29 ∷ 0xA9 ∷ 0x26 ∷ 0x20 ∷ 0xED
    ∷ 0x65 ∷ 0x37 ∷ 0x06 ∷ 0x87 ∷ 0xFC ∷ 0xFB ∷ 0x65 ∷ 0x02 ∷ 0x1B ∷ 0x3C ∷ 0x52 ∷ 0x03 ∷ 0xA1
    ∷ 0xBB ∷ 0xCF ∷ 0xE7 ∷ 0x1B ∷ 0xA4 ∷ 0x1A ∷ 0xE3 ∷ 0x94 ∷ 0x97 ∷ 0x66 ∷ 0x06 ∷ 0xBF ∷ 0xA9
    ∷ 0xCE ∷ 0x1B ∷ 0x07 ∷ 0x10 ∷ 0xBA ∷ 0xF8 ∷ 0xD4 ∷ 0xD4 ∷ 0x05 ∷ 0xCF ∷ 0x53 ∷ 0x47 ∷ 0x16
    ∷ 0x2C ∷ 0xA1 ∷ 0xFC ∷ 0x6B ∷ 0xEF ∷ 0xF8 ∷ 0x6C ∷ 0x23 ∷ 0x34 ∷ 0xEF ∷ 0xB7 ∷ 0xD3 ∷ 0x3F
    ∷ 0xC2 ∷ 0x42 ∷ 0x5C ∷ 0x53 ∷ 0x9A ∷ 0x00 ∷ 0x52 ∷ 0xCF ∷ 0xAC ∷ 0x42 ∷ 0xD3 ∷ 0x3B ∷ 0x2E
    ∷ 0xB6 ∷ 0x04 ∷ 0x32 ∷ 0xE1 ∷ 0x09 ∷ 0xED ∷ 0x64 ∷ 0xCD ∷ 0x6A ∷ 0x63 ∷ 0x58 ∷ 0xB8 ∷ 0x43
    ∷ 0x56 ∷ 0x5A ∷ 0xBE ∷ 0xA4 ∷ 0x9F ∷ 0x68 ∷ 0xD4 ∷ 0xF7 ∷ 0xC9 ∷ 0x04 ∷ 0xDF ∷ 0xCD ∷ 0xE5
    ∷ 0x93 ∷ 0xB0 ∷ 0x2F ∷ 0x06 ∷ 0x19 ∷ 0x3E ∷ 0xB8 ∷ 0xAB ∷ 0x7E ∷ 0xF8 ∷ 0xE7 ∷ 0xE7 ∷ 0xC8
    ∷ 0x53 ∷ 0xA2 ∷ 0x06 ∷ 0xC3 ∷ 0xC7 ∷ 0xF9 ∷ 0x18 ∷ 0x3B ∷ 0x51 ∷ 0xC3 ∷ 0x9B ∷ 0xFF ∷ 0x8F
    ∷ 0x00 ∷ 0x0E ∷ 0x87 ∷ 0x19 ∷ 0x68 ∷ 0x2F ∷ 0x40 ∷ 0xC0 ∷ 0x68 ∷ 0xFA ∷ 0x12 ∷ 0xAE ∷ 0x57
    ∷ 0xB5 ∷ 0xF0 ∷ 0x97 ∷ 0xCA ∷ 0x78 ∷ 0x23 ∷ 0x31 ∷ 0xAB ∷ 0x67 ∷ 0x7B ∷ 0x10 ∷ 0x6B ∷ 0x59
    ∷ 0x32 ∷ 0x9C ∷ 0x64 ∷ 0x20 ∷ 0x38 ∷ 0x1F ∷ 0xC5 ∷ 0x07 ∷ 0x84 ∷ 0x9E ∷ 0xC4 ∷ 0x49 ∷ 0xB1
    ∷ 0xDF ∷ 0xED ∷ 0x7A ∷ 0x8A ∷ 0xC3 ∷ 0xE0 ∷ 0xDD ∷ 0x30 ∷ 0x55 ∷ 0xFF ∷ 0x95 ∷ 0x45 ∷ 0xA6
    ∷ 0xEE ∷ 0xCB ∷ 0xE4 ∷ 0x26 ∷ 0xB9 ∷ 0x8E ∷ 0x89 ∷ 0x37 ∷ 0x63 ∷ 0xD4 ∷ 0x02 ∷ 0x3D ∷ 0x5B
    ∷ 0x4F ∷ 0xE5 ∷ 0x90 ∷ 0xF6 ∷ 0x72 ∷ 0xF8 ∷ 0x10 ∷ 0xEE ∷ 0x31 ∷ 0x04 ∷ 0x54 ∷ 0x17 ∷ 0xE3
    ∷ 0xD5 ∷ 0x63 ∷ 0x84 ∷ 0x80 ∷ 0x62 ∷ 0x54 ∷ 0x46 ∷ 0x85 ∷ 0x6C ∷ 0xD2 ∷ 0xC1 ∷ 0x3E ∷ 0x19
    ∷ 0xBD ∷ 0xE2 ∷ 0x80 ∷ 0x11 ∷ 0x86 ∷ 0xC7 ∷ 0x4B ∷ 0x7F ∷ 0x67 ∷ 0x86 ∷ 0x47 ∷ 0xD2 ∷ 0x38
    ∷ 0xCD ∷ 0x8F ∷ 0xFE ∷ 0x65 ∷ 0x3C ∷ 0x11 ∷ 0xCD ∷ 0x96 ∷ 0x99 ∷ 0x4E ∷ 0x45 ∷ 0xEB ∷ 0xEC
    ∷ 0x1D ∷ 0x94 ∷ 0x8C ∷ 0x53 ∷ []

unfoldable pub dhxxx2_g : List ℕ
dhxxx2_g = 0x02 ∷ []
