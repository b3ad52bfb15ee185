-- ===== src/Merkle/DefaultValues.antt =====
-- lee/state_machine/src/merkle_tree/default_values.rs: the root of an empty subtree of each
-- height. A 32-byte node stands for the number that its bytes spell, the lowest byte first.
use lssa.Prelude.{ℕ, List, [], ◌∷◌}

-- `DEFAULT_VALUES`.
abbrev pub default_values : List ℕ
default_values =
    0 ∷ 0x4bfb5927a93198eae8f0d920233d00439b9709d36eef982730206ad142fda5f5
    ∷ 0x715d8b746a60de6ca9d0ebb1ecaa8992a8c95af32b895cf8c1d4fd004e1156db
    ∷ 0x3cb35a10cdf45fc14b4ce463ed42a5aa53a358063722f1116ac57ff0fd0980c7
    ∷ 0x3c122a3519ae3cbf56f26d246fd57244958514e9ea5e5da565d12d7f83986d53
    ∷ 0x300d0c43b82c8c584a85a1d7034da64dc6d7b1d0d4ba05ae9f4215aa52e0fd9e
    ∷ 0xa11f04762977e6910f2918612e304c117e49c14219b2965575a800d4eedf8dd8
    ∷ 0x2c7f5211eee56bbb644ccfc70625e27559afa402386786d2f6357ea5db0deb87
    ∷ 0x93b17d8d2f786bd1b95bc83c533f64f24451c9675138435d4ac55ffd76648426
    ∷ 0xe1514f09f0b23ce187f8a55aeff15912bfd2ca92870140b80524252d58866d50
    ∷ 0x2be99211d18563c00444eddae1f14e01c4ef15c895c134952f7759e6d70affff
    ∷ 0x20429675aa8376b42aa0e617430e89682885be527a1033d81c4405db2741f06c
    ∷ 0x5f9f320c96f7da85306223110f2f8fce84bb7b24a21851ef2700145f875fd0b7
    ∷ 0x5ea8086aea4d288b6f67291e176708967380bfe418a68aefe96bdbbbf5f56adf
    ∷ 0x843729a77d5869c32335c27c7549c526776ca19e9674ef503c2e185e0f908db5
    ∷ 0xbbf2c8fc713b089ddf626bf9a7618130ca00856885781d0b34b0cfff02759ad4
    ∷ 0xeb2be98d94e5d371c197ba10e196192ca22720be5b2ff485d3c0569268b1e68f
    ∷ 0xab03760592cbfeacec05f918be12a15ffb76389c3caee00985deba9ec3630d8d
    ∷ 0xa4f5268cb9d5ac6ccb82236c49549f6146e0f28583e31de9d4ca41e5b2c8ee95
    ∷ 0x7ff1816f6a647b8801485bc3c16c8ecda1e3bb4d2923ff2bb675779108e993f8
    ∷ 0xaaeb089e813c1882b21d71ed85542fbf1a43c7fa9461c1933313e392b5a7dbcd
    ∷ 0x9cff23ff295633d02a1461808a12b9df57140032a839765a08aa8cafe37f8d8a
    ∷ 0x67119ced5b5c1dd5bfa0e7d49b965c19c9e1524ce3b900bf6f1aa5d737c3b3fe
    ∷ 0xd710a57763dfc0a6f6093a9fec2e1885ca74013e4d9ffabedf2ec33ca80a1fe7
    ∷ 0xc04ba8e0c8d892cbfe49f0c8ee602a211262f158500829be6abb500aa86f2031
    ∷ 0x44b5238e15dc9961b112b4f94375e33e0aac3d4c619f8393e9ddedcbfe2b3521
    ∷ 0x6567a48104d9a8f88bc513af89b366a364d791e79ded53317c6dbb2427319e61
    ∷ 0xc4c172ea2c3f134fc0bc9151e0fbe691618cc585e3100c8d625082268629dd7c
    ∷ 0xe1cb7b014d37332939917f58b87be0698827fb1321076146c5caa87bbd308984
    ∷ 0x3696885b1f278dbbe89504e8b04fbe283380923285d91005c18cb2222cff6988
    ∷ 0x5c3a52c5b0f2b4e08f3e14b76dc09fb4e7a1b6e96c2458860f851b9fe728feb5
    ∷ 0xf7c01ad31089bdd3989e488c777c7c597f978f800aa9d1bdd028af709f925e98 ∷ []
