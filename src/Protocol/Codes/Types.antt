-- ===== src/Protocol/Codes/Types.antt =====
-- The wire data types of types.go.
use gocubrid.Prelude.{ℕ}

abbrev pub null : ℕ
null = 0

abbrev pub char : ℕ
char = 1

abbrev pub varchar : ℕ
varchar = 2

abbrev pub nchar : ℕ
nchar = 3

abbrev pub var_nchar : ℕ
var_nchar = 4

abbrev pub bit : ℕ
bit = 5

abbrev pub varbit : ℕ
varbit = 6

abbrev pub numeric : ℕ
numeric = 7

abbrev pub int : ℕ
int = 8

abbrev pub short : ℕ
short = 9

abbrev pub monetary : ℕ
monetary = 10

abbrev pub float : ℕ
float = 11

abbrev pub double : ℕ
double = 12

abbrev pub date : ℕ
date = 13

abbrev pub time : ℕ
time = 14

abbrev pub timestamp : ℕ
timestamp = 15

abbrev pub set : ℕ
set = 16

abbrev pub multiset : ℕ
multiset = 17

abbrev pub sequence : ℕ
sequence = 18

abbrev pub object : ℕ
object = 19

abbrev pub resultset : ℕ
resultset = 20

abbrev pub bigint : ℕ
bigint = 21

abbrev pub datetime : ℕ
datetime = 22

abbrev pub blob : ℕ
blob = 23

abbrev pub clob : ℕ
clob = 24

abbrev pub enum : ℕ
enum = 25

abbrev pub u_short : ℕ
u_short = 26

abbrev pub u_int : ℕ
u_int = 27

abbrev pub u_bigint : ℕ
u_bigint = 28

abbrev pub timestamp_tz : ℕ
timestamp_tz = 29

abbrev pub timestamp_ltz : ℕ
timestamp_ltz = 30

abbrev pub datetime_tz : ℕ
datetime_tz = 31

abbrev pub datetime_ltz : ℕ
datetime_ltz = 32

abbrev pub json : ℕ
json = 34
