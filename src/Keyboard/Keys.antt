-- ===== src/Keyboard/Keys.antt =====
-- The table of keys.h: a row for each scancode, a column for each state of the shift keys.
use cyb_os.Prelude.{ℕ, List, [], ◌∷◌}

-- Plain, shift, control, alt, num lock, caps lock, shift with caps lock, shift with num lock.
abbrev row : (plain shift ctrl alt num caps shift_caps shift_num : ℕ) → List ℕ
row plain shift ctrl alt num caps shift_caps shift_num =
    plain ∷ shift ∷ ctrl ∷ alt ∷ num ∷ caps ∷ shift_caps ∷ shift_num ∷ []

abbrev pub scan2ascii_table : List (List ℕ)
scan2ascii_table =
    row 0 0 0 0 0 0 0 0
    ∷ row 27 27 27 0 27 27 27 27
    ∷ row 49 33 0 30720 49 49 33 33
    ∷ row 50 64 768 30976 50 50 64 64
    ∷ row 51 35 0 31232 51 51 35 35
    ∷ row 52 36 0 31488 52 52 36 36
    ∷ row 53 37 0 31744 53 53 37 37
    ∷ row 54 94 30 32000 54 54 94 94
    ∷ row 55 38 0 32256 55 55 38 38
    ∷ row 56 42 0 32512 56 56 42 42
    ∷ row 57 40 0 32768 57 57 40 40
    ∷ row 48 41 0 33024 48 48 41 41
    ∷ row 45 95 31 33280 45 45 95 95
    ∷ row 61 43 0 33536 61 61 43 43
    ∷ row 8 8 127 0 8 8 8 8
    ∷ row 9 3840 0 0 9 9 3840 3840
    ∷ row 113 81 17 4096 113 81 113 81
    ∷ row 119 87 23 4352 119 87 119 87
    ∷ row 101 69 5 4608 101 69 101 69
    ∷ row 114 82 18 4864 114 82 114 82
    ∷ row 116 84 20 5120 116 84 116 84
    ∷ row 121 89 25 5376 121 89 121 89
    ∷ row 117 85 21 5632 117 85 117 85
    ∷ row 105 73 9 5888 105 73 105 73
    ∷ row 111 79 15 6144 111 79 111 79
    ∷ row 112 80 16 6400 112 80 112 80
    ∷ row 91 123 27 0 91 91 123 123
    ∷ row 93 125 29 0 93 93 125 125
    ∷ row 13 13 13 13 13 13 13 13
    ∷ row 0 0 0 0 0 0 0 0
    ∷ row 97 65 1 7680 97 65 97 65
    ∷ row 115 83 19 7936 115 83 115 83
    ∷ row 100 68 4 8192 100 68 100 68
    ∷ row 102 70 6 8448 102 70 102 70
    ∷ row 103 71 7 8704 103 71 103 71
    ∷ row 104 72 8 8960 104 72 104 72
    ∷ row 106 74 10 9216 106 74 106 74
    ∷ row 107 75 11 13568 107 75 107 75
    ∷ row 108 76 12 9728 108 76 108 76
    ∷ row 59 58 0 0 59 59 58 58
    ∷ row 39 34 0 0 39 39 34 34
    ∷ row 96 126 0 0 96 96 126 126
    ∷ row 42 0 0 0 0 0 0 0
    ∷ row 92 124 28 0 92 92 124 124
    ∷ row 122 90 26 11264 122 90 122 90
    ∷ row 120 88 24 11520 120 88 120 88
    ∷ row 99 67 3 11776 99 67 99 67
    ∷ row 118 86 22 12032 118 86 118 86
    ∷ row 98 66 2 12288 98 66 98 66
    ∷ row 110 78 14 12544 110 78 110 78
    ∷ row 109 77 13 12800 109 77 109 77
    ∷ row 44 60 0 0 44 44 60 60
    ∷ row 46 62 0 0 46 46 62 62
    ∷ row 47 63 0 0 47 47 63 63
    ∷ row 0 0 0 0 0 0 0 0
    ∷ row 0 0 0 0 0 0 0 0
    ∷ row 0 0 0 0 0 0 0 0
    ∷ row 32 32 32 0 32 32 32 32
    ∷ row 0 0 0 0 0 0 0 0
    ∷ row 15104 21504 24064 26624 15104 15104 21504 21504
    ∷ row 15360 21760 24320 26880 15360 15360 21760 21760
    ∷ row 15616 22016 24576 27136 15616 15616 22016 22016
    ∷ row 15872 22272 24832 27392 15872 15872 22272 22272
    ∷ row 16128 22528 25088 27648 16128 16128 22528 22528
    ∷ row 16384 22784 25344 27904 16384 16384 22784 22784
    ∷ row 16640 23040 25600 28160 16640 16640 23040 23040
    ∷ row 16896 23296 25856 28416 16896 16896 23296 23296
    ∷ row 17152 23552 26112 28672 17152 17152 23552 23552
    ∷ row 17408 23808 26368 28928 17408 17408 23808 23808
    ∷ row 0 0 0 0 0 0 0 0
    ∷ row 0 0 0 0 0 0 0 0
    ∷ row 18176 55 30464 0 55 18176 55 18176
    ∷ row 18432 56 0 0 56 18432 56 18432
    ∷ row 18688 57 33792 0 57 18688 57 18688
    ∷ row 45 45 0 0 45 45 45 45
    ∷ row 19200 52 29440 0 52 19200 52 19200
    ∷ row 19456 53 0 0 53 19456 53 19456
    ∷ row 19712 54 29696 0 54 19712 54 19712
    ∷ row 43 43 0 0 43 43 43 43
    ∷ row 20224 49 29952 0 49 20224 49 20224
    ∷ row 20480 50 0 0 50 20480 50 20480
    ∷ row 20736 51 30208 0 51 20736 51 20736
    ∷ row 20992 48 0 0 48 20992 48 20992
    ∷ row 21248 46 0 0 46 21248 46 21248
    ∷ []
