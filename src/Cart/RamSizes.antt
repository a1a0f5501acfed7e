-- ===== src/Cart/RamSizes.antt =====
-- `kRamSizeTable` of carbon-pc/src/gb/Cartridge.cpp: the RAM sizes by header byte, each as the bit
-- pattern of its `int32_t`.
use open_carbon.Base.{ℕ, List, [], ◌∷◌}

unfoldable pub ram_size_table : List ℕ
ram_size_table =
    0 ∷ 2048 ∷ 8192 ∷ 32768 ∷ 131072 ∷ 65536 ∷ 1647866963 ∷ 1667196001 ∷ 7631713 ∷ 1698264147
    ∷ 1885692792 ∷ 1852795252 ∷ 134479872 ∷ 150999052 ∷ 34737932 ∷ 6 ∷ 2069185569 ∷ 855452
    ∷ 370546176 ∷ 589508880 ∷ 774778403 ∷ 921088 ∷ 202116096 ∷ 4368 ∷ 218959104 ∷ 196631 ∷ 327684
    ∷ 458758 ∷ 589832 ∷ 720906 ∷ 983053 ∷ 1245201 ∷ 1769495 ∷ 2293791 ∷ 3342379 ∷ 4390971 ∷ 6488147
    ∷ 8585331 ∷ 12779683 ∷ 16908515 ∷ 259 ∷ 0 ∷ 16842752 ∷ 33685761 ∷ 50528770 ∷ 67371779 ∷ 84214788
    ∷ 1285 ∷ 131073 ∷ 262147 ∷ 458757 ∷ 851977 ∷ 1638417 ∷ 3211297 ∷ 6357057 ∷ 12648577 ∷ 25231617
    ∷ 50397697 ∷ 100729857 ∷ 201394177 ∷ 402722817 ∷ 805380097 ∷ 1610694657 ∷ 32768 ∷ 16842752
    ∷ 50528770 ∷ 84214788 ∷ 117900806 ∷ 151586824 ∷ 185272842 ∷ 218958860 ∷ 4294967295 ∷ 0 ∷ 4 ∷ 2
    ∷ 6 ∷ 0 ∷ 1 ∷ 2 ∷ 3 ∷ 4 ∷ 0 ∷ 1 ∷ 0 ∷ 5 ∷ 6 ∷ 0 ∷ 1996959894 ∷ 3993919788 ∷ 2567524794
    ∷ 124634137 ∷ 1886057615 ∷ 3915621685 ∷ 2657392035 ∷ 249268274 ∷ 2044508324 ∷ 3772115230
    ∷ 2547177864 ∷ 162941995 ∷ 2125561021 ∷ 3887607047 ∷ 2428444049 ∷ 498536548 ∷ 1789927666
    ∷ 4089016648 ∷ 2227061214 ∷ 450548861 ∷ 1843258603 ∷ 4107580753 ∷ 2211677639 ∷ 325883990
    ∷ 1684777152 ∷ 4251122042 ∷ 2321926636 ∷ 335633487 ∷ 1661365465 ∷ 4195302755 ∷ 2366115317
    ∷ 997073096 ∷ 1281953886 ∷ 3579855332 ∷ 2724688242 ∷ 1006888145 ∷ 1258607687 ∷ 3524101629
    ∷ 2768942443 ∷ 901097722 ∷ 1119000684 ∷ 3686517206 ∷ 2898065728 ∷ 853044451 ∷ 1172266101
    ∷ 3705015759 ∷ 2882616665 ∷ 651767980 ∷ 1373503546 ∷ 3369554304 ∷ 3218104598 ∷ 565507253
    ∷ 1454621731 ∷ 3485111705 ∷ 3099436303 ∷ 671266974 ∷ 1594198024 ∷ 3322730930 ∷ 2970347812
    ∷ 795835527 ∷ 1483230225 ∷ 3244367275 ∷ 3060149565 ∷ 1994146192 ∷ 31158534 ∷ 2563907772
    ∷ 4023717930 ∷ 1907459465 ∷ 112637215 ∷ 2680153253 ∷ 3904427059 ∷ 2013776290 ∷ 251722036
    ∷ 2517215374 ∷ 3775830040 ∷ 2137656763 ∷ 141376813 ∷ 2439277719 ∷ 3865271297 ∷ 1802195444
    ∷ 476864866 ∷ 2238001368 ∷ 4066508878 ∷ 1812370925 ∷ 453092731 ∷ 2181625025 ∷ 4111451223
    ∷ 1706088902 ∷ 314042704 ∷ 2344532202 ∷ 4240017532 ∷ 1658658271 ∷ 366619977 ∷ 2362670323
    ∷ 4224994405 ∷ 1303535960 ∷ 984961486 ∷ 2747007092 ∷ 3569037538 ∷ 1256170817 ∷ 1037604311
    ∷ 2765210733 ∷ 3554079995 ∷ 1131014506 ∷ 879679996 ∷ 2909243462 ∷ 3663771856 ∷ 1141124467
    ∷ 855842277 ∷ 2852801631 ∷ 3708648649 ∷ 1342533948 ∷ 654459306 ∷ 3188396048 ∷ 3373015174
    ∷ 1466479909 ∷ 544179635 ∷ 3110523913 ∷ 3462522015 ∷ 1591671054 ∷ 702138776 ∷ 2966460450
    ∷ 3352799412 ∷ 1504918807 ∷ 783551873 ∷ 3082640443 ∷ 3233442989 ∷ 3988292384 ∷ 2596254646
    ∷ 62317068 ∷ 1957810842 ∷ 3939845945 ∷ 2647816111 ∷ 81470997 ∷ 1943803523 ∷ 3814918930
    ∷ 2489596804 ∷ 225274430 ∷ 2053790376 ∷ 3826175755 ∷ 2466906013 ∷ 167816743 ∷ 2097651377
    ∷ 4027552580 ∷ 2265490386 ∷ 503444072 ∷ 1762050814 ∷ 4150417245 ∷ 2154129355 ∷ 426522225
    ∷ 1852507879 ∷ 4275313526 ∷ 2312317920 ∷ 282753626 ∷ 1742555852 ∷ 4189708143 ∷ 2394877945
    ∷ 397917763 ∷ 1622183637 ∷ 3604390888 ∷ 2714866558 ∷ 953729732 ∷ 1340076626 ∷ 3518719985
    ∷ 2797360999 ∷ 1068828381 ∷ 1219638859 ∷ 3624741850 ∷ 2936675148 ∷ []
