-- ===== src/Crc/Tables/Dif.antt =====
-- modules/host_if/host_if.c: the look-up table of `dif_crc16`.
use ftl_firmware.Common.{ℕ, List, [], ◌∷◌}

unfoldable pub crc16_t10pi_table : List ℕ
crc16_t10pi_table =
    0x0000 ∷ 0x8bb7 ∷ 0x9cd9 ∷ 0x176e ∷ 0xb205 ∷ 0x39b2 ∷ 0x2edc ∷ 0xa56b ∷ 0xefbd ∷ 0x640a ∷ 0x7364
    ∷ 0xf8d3 ∷ 0x5db8 ∷ 0xd60f ∷ 0xc161 ∷ 0x4ad6 ∷ 0x54cd ∷ 0xdf7a ∷ 0xc814 ∷ 0x43a3 ∷ 0xe6c8
    ∷ 0x6d7f ∷ 0x7a11 ∷ 0xf1a6 ∷ 0xbb70 ∷ 0x30c7 ∷ 0x27a9 ∷ 0xac1e ∷ 0x0975 ∷ 0x82c2 ∷ 0x95ac
    ∷ 0x1e1b ∷ 0xa99a ∷ 0x222d ∷ 0x3543 ∷ 0xbef4 ∷ 0x1b9f ∷ 0x9028 ∷ 0x8746 ∷ 0x0cf1 ∷ 0x4627
    ∷ 0xcd90 ∷ 0xdafe ∷ 0x5149 ∷ 0xf422 ∷ 0x7f95 ∷ 0x68fb ∷ 0xe34c ∷ 0xfd57 ∷ 0x76e0 ∷ 0x618e
    ∷ 0xea39 ∷ 0x4f52 ∷ 0xc4e5 ∷ 0xd38b ∷ 0x583c ∷ 0x12ea ∷ 0x995d ∷ 0x8e33 ∷ 0x0584 ∷ 0xa0ef
    ∷ 0x2b58 ∷ 0x3c36 ∷ 0xb781 ∷ 0x883d ∷ 0x038a ∷ 0x14e4 ∷ 0x9f53 ∷ 0x3a38 ∷ 0xb18f ∷ 0xa6e1
    ∷ 0x2d56 ∷ 0x6780 ∷ 0xec37 ∷ 0xfb59 ∷ 0x70ee ∷ 0xd585 ∷ 0x5e32 ∷ 0x495c ∷ 0xc2eb ∷ 0xdcf0
    ∷ 0x5747 ∷ 0x4029 ∷ 0xcb9e ∷ 0x6ef5 ∷ 0xe542 ∷ 0xf22c ∷ 0x799b ∷ 0x334d ∷ 0xb8fa ∷ 0xaf94
    ∷ 0x2423 ∷ 0x8148 ∷ 0x0aff ∷ 0x1d91 ∷ 0x9626 ∷ 0x21a7 ∷ 0xaa10 ∷ 0xbd7e ∷ 0x36c9 ∷ 0x93a2
    ∷ 0x1815 ∷ 0x0f7b ∷ 0x84cc ∷ 0xce1a ∷ 0x45ad ∷ 0x52c3 ∷ 0xd974 ∷ 0x7c1f ∷ 0xf7a8 ∷ 0xe0c6
    ∷ 0x6b71 ∷ 0x756a ∷ 0xfedd ∷ 0xe9b3 ∷ 0x6204 ∷ 0xc76f ∷ 0x4cd8 ∷ 0x5bb6 ∷ 0xd001 ∷ 0x9ad7
    ∷ 0x1160 ∷ 0x060e ∷ 0x8db9 ∷ 0x28d2 ∷ 0xa365 ∷ 0xb40b ∷ 0x3fbc ∷ 0x1083 ∷ 0x9b34 ∷ 0x8c5a
    ∷ 0x07ed ∷ 0xa286 ∷ 0x2931 ∷ 0x3e5f ∷ 0xb5e8 ∷ 0xff3e ∷ 0x7489 ∷ 0x63e7 ∷ 0xe850 ∷ 0x4d3b
    ∷ 0xc68c ∷ 0xd1e2 ∷ 0x5a55 ∷ 0x444e ∷ 0xcff9 ∷ 0xd897 ∷ 0x5320 ∷ 0xf64b ∷ 0x7dfc ∷ 0x6a92
    ∷ 0xe125 ∷ 0xabf3 ∷ 0x2044 ∷ 0x372a ∷ 0xbc9d ∷ 0x19f6 ∷ 0x9241 ∷ 0x852f ∷ 0x0e98 ∷ 0xb919
    ∷ 0x32ae ∷ 0x25c0 ∷ 0xae77 ∷ 0x0b1c ∷ 0x80ab ∷ 0x97c5 ∷ 0x1c72 ∷ 0x56a4 ∷ 0xdd13 ∷ 0xca7d
    ∷ 0x41ca ∷ 0xe4a1 ∷ 0x6f16 ∷ 0x7878 ∷ 0xf3cf ∷ 0xedd4 ∷ 0x6663 ∷ 0x710d ∷ 0xfaba ∷ 0x5fd1
    ∷ 0xd466 ∷ 0xc308 ∷ 0x48bf ∷ 0x0269 ∷ 0x89de ∷ 0x9eb0 ∷ 0x1507 ∷ 0xb06c ∷ 0x3bdb ∷ 0x2cb5
    ∷ 0xa702 ∷ 0x98be ∷ 0x1309 ∷ 0x0467 ∷ 0x8fd0 ∷ 0x2abb ∷ 0xa10c ∷ 0xb662 ∷ 0x3dd5 ∷ 0x7703
    ∷ 0xfcb4 ∷ 0xebda ∷ 0x606d ∷ 0xc506 ∷ 0x4eb1 ∷ 0x59df ∷ 0xd268 ∷ 0xcc73 ∷ 0x47c4 ∷ 0x50aa
    ∷ 0xdb1d ∷ 0x7e76 ∷ 0xf5c1 ∷ 0xe2af ∷ 0x6918 ∷ 0x23ce ∷ 0xa879 ∷ 0xbf17 ∷ 0x34a0 ∷ 0x91cb
    ∷ 0x1a7c ∷ 0x0d12 ∷ 0x86a5 ∷ 0x3124 ∷ 0xba93 ∷ 0xadfd ∷ 0x264a ∷ 0x8321 ∷ 0x0896 ∷ 0x1ff8
    ∷ 0x944f ∷ 0xde99 ∷ 0x552e ∷ 0x4240 ∷ 0xc9f7 ∷ 0x6c9c ∷ 0xe72b ∷ 0xf045 ∷ 0x7bf2 ∷ 0x65e9
    ∷ 0xee5e ∷ 0xf930 ∷ 0x7287 ∷ 0xd7ec ∷ 0x5c5b ∷ 0x4b35 ∷ 0xc082 ∷ 0x8a54 ∷ 0x01e3 ∷ 0x168d
    ∷ 0x9d3a ∷ 0x3851 ∷ 0xb3e6 ∷ 0xa488 ∷ 0x2f3f ∷ []
