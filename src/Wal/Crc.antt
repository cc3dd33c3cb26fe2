-- ===== src/Wal/Crc.antt =====
-- src/Database/crc32.h: the checksum of log entries.
use wave_db.Base.{
  ℕ, ◌/◌, ◌%◌, ◌^◌, ◌<◌, ◌≡◌, ◌∙◌, refl, sym, ap, arith, List, [], ◌∷◌, ◌++◌, get_or,
}
use Prim.Native.Nat.{bit_xor}

-- `crc32_table`. The initialiser lists 254 of the 256 elements; the others are 0, as is what
-- `get_or` gives for them.
unfoldable pub crc32_table : List ℕ
crc32_table =
    0 ∷ 1996959894 ∷ 3993919788 ∷ 2567524794 ∷ 124634137 ∷ 1886057615 ∷ 3915621685 ∷ 2657392035
    ∷ 249268274 ∷ 2044508324 ∷ 3772115230 ∷ 2547177864 ∷ 162941995 ∷ 2125561021 ∷ 3887607047
    ∷ 2428444049 ∷ 498536548 ∷ 1789927666 ∷ 4089016648 ∷ 2227061214 ∷ 450548861 ∷ 1843258603
    ∷ 4107580753 ∷ 2211677639 ∷ 325883990 ∷ 1684777152 ∷ 4251122042 ∷ 2321926636 ∷ 335633487
    ∷ 1661365465 ∷ 4195302755 ∷ 2366115317 ∷ 997073096 ∷ 1281953886 ∷ 3579855332 ∷ 2724688242
    ∷ 1006888145 ∷ 1258607687 ∷ 3524101629 ∷ 2768942443 ∷ 901097722 ∷ 1119000684 ∷ 3686517206
    ∷ 2898065728 ∷ 853044451 ∷ 1172266101 ∷ 4241999703 ∷ 2333990035 ∷ 431269522 ∷ 1852522309
    ∷ 4152354793 ∷ 2163268010 ∷ 228427374 ∷ 3658212390 ∷ 2910822473 ∷ 976985474 ∷ 1299070766
    ∷ 3584420175 ∷ 2729689278 ∷ 932751345 ∷ 1251583961 ∷ 3710374499 ∷ 2852701097 ∷ 1030433660
    ∷ 1256448317 ∷ 3554787521 ∷ 2925271835 ∷ 965487498 ∷ 1313606419 ∷ 3648683455 ∷ 2867874831
    ∷ 1026203022 ∷ 1249709701 ∷ 3520237148 ∷ 2791155056 ∷ 833911435 ∷ 1278021255 ∷ 3676126110
    ∷ 2891555674 ∷ 996023665 ∷ 1284031433 ∷ 3685785296 ∷ 2902814095 ∷ 947242944 ∷ 1327350343
    ∷ 3634816634 ∷ 2869403835 ∷ 1013857674 ∷ 1234064631 ∷ 3728521140 ∷ 2839001450 ∷ 1007003089
    ∷ 1266399328 ∷ 3638574323 ∷ 2950020717 ∷ 952453871 ∷ 1267512891 ∷ 3653362358 ∷ 2925431238
    ∷ 961353956 ∷ 1275291603 ∷ 3683609503 ∷ 2820487738 ∷ 1023993212 ∷ 1257180025 ∷ 3716005206
    ∷ 2836348462 ∷ 1009155086 ∷ 1240862855 ∷ 3720402386 ∷ 2859592105 ∷ 996318648 ∷ 1284135767
    ∷ 3505381266 ∷ 2912769735 ∷ 952625036 ∷ 1259292612 ∷ 3634885998 ∷ 2869142745 ∷ 1014952656
    ∷ 1226804146 ∷ 3710171382 ∷ 2868550207 ∷ 996134355 ∷ 1283518669 ∷ 3665717990 ∷ 2909249612
    ∷ 960831894 ∷ 1285241484 ∷ 3637210269 ∷ 2885616517 ∷ 996884929 ∷ 1285184139 ∷ 3638066283
    ∷ 2850320068 ∷ 996036479 ∷ 1283963110 ∷ 3715918410 ∷ 2865367944 ∷ 1000213634 ∷ 1285438619
    ∷ 3638783359 ∷ 2850272489 ∷ 999165320 ∷ 1284378843 ∷ 3638719589 ∷ 2850334494 ∷ 998901897
    ∷ 1284880167 ∷ 3638905951 ∷ 2850154728 ∷ 998495883 ∷ 1284558473 ∷ 3638719611 ∷ 2850346574
    ∷ 999169564 ∷ 1285005452 ∷ 3638719626 ∷ 2850267368 ∷ 999168606 ∷ 1284947606 ∷ 3638718043
    ∷ 2850275751 ∷ 999163790 ∷ 1285023714 ∷ 3638719729 ∷ 2850337454 ∷ 999029611 ∷ 1285316249
    ∷ 3638787731 ∷ 2850273745 ∷ 999165230 ∷ 1285010859 ∷ 3638719635 ∷ 2850264475 ∷ 999163754
    ∷ 1285241498 ∷ 3638810012 ∷ 2850331466 ∷ 999165013 ∷ 1284943548 ∷ 3638801097 ∷ 2850267825
    ∷ 999164243 ∷ 1285241620 ∷ 3638806181 ∷ 2850345074 ∷ 999001816 ∷ 1285334474 ∷ 3638726552
    ∷ 2850289530 ∷ 999164746 ∷ 1284880867 ∷ 3638805703 ∷ 2850348957 ∷ 999164259 ∷ 1285073094
    ∷ 3638794465 ∷ 2850273251 ∷ 999163257 ∷ 1285241372 ∷ 3638719715 ∷ 2850264399 ∷ 999164959
    ∷ 1284945636 ∷ 3638719595 ∷ 2850271445 ∷ 999165453 ∷ 1285230123 ∷ 3638787662 ∷ 2850331432
    ∷ 999001742 ∷ 1285351109 ∷ 3638779278 ∷ 2850337006 ∷ 999164763 ∷ 1284879449 ∷ 3638719596
    ∷ 2850286059 ∷ 999165197 ∷ 1285316398 ∷ 3638796172 ∷ 2850284734 ∷ 999169693 ∷ 1285006285
    ∷ 3638787677 ∷ 2850271438 ∷ 999164043 ∷ 1284940570 ∷ 3638743511 ∷ 2850268335 ∷ 999164574
    ∷ 1285266334 ∷ 3638801657 ∷ 2850279604 ∷ 999164110 ∷ 1285285328 ∷ 3638816933 ∷ 2850343134
    ∷ 999001118 ∷ 1285315885 ∷ 3638815117 ∷ 2850276328 ∷ 999169306 ∷ 1284941038 ∷ 3638739134
    ∷ 2850267565 ∷ 999165229 ∷ 1285242318 ∷ 3638795805 ∷ 2850351569 ∷ 999000702 ∷ 1285401486
    ∷ 3638798253 ∷ []

-- One round of the loop of `wal_crc32`.
unfoldable pub crc_step : ℕ → ℕ → ℕ
crc_step crc byte = bit_xor (crc / 256) (get_or crc32_table (bit_xor crc byte % 256) 0) % 2 ^ 32

unfoldable pub crc_loop : ℕ → List ℕ → ℕ
crc_loop crc [] = crc
crc_loop crc (byte ∷ bytes) = crc_loop (crc_step crc byte) bytes

-- `wal_crc32`
unfoldable pub crc32 : List ℕ → ℕ
unfolding crc_loop
crc32 bytes = bit_xor (crc_loop 4294967295 bytes) 4294967295 % 2 ^ 32

pub crc32-lt : (bytes : List ℕ) → crc32 bytes < 2 ^ 32
unfolding crc32
crc32-lt bytes = omega arith

crc_loop-append : (crc : ℕ) (p s : List ℕ) → crc_loop crc (p ++ s) ≡ crc_loop (crc_loop crc p) s
unfolding crc_loop
crc_loop-append crc [] s = refl
crc_loop-append crc (x ∷ p) s = crc_loop-append (crc_step crc x) p s

-- The state of the loop behind some bytes.
abbrev pub state : List ℕ → ℕ
state p = crc_loop 4294967295 p

last_two :
    (crc x y : ℕ)
    → bit_xor crc x % 256 ≡ 254
    → bit_xor crc y % 256 ≡ 255
    → crc_step crc x ≡ crc_step crc y
unfolding crc_step crc32_table
last_two crc x y h k = rw (h, k) refl

-- Two bytes that select the last two elements of the table have one checksum, whatever stands in
-- front of them and behind them.
pub crc32_blind :
    (p s : List ℕ) (x y : ℕ)
    → bit_xor (state p) x % 256 ≡ 254
    → bit_xor (state p) y % 256 ≡ 255
    → crc32 (p ++ (x ∷ s)) ≡ crc32 (p ++ (y ∷ s))
unfolding crc32 crc_loop
crc32_blind p s x y h k =
    ap (λ c. bit_xor c 4294967295 % 2 ^ 32)
      (crc_loop-append 4294967295 p (x ∷ s)
        ∙ ap (λ c. crc_loop c s) (last_two (state p) x y h k)
        ∙ sym (crc_loop-append 4294967295 p (y ∷ s)))
